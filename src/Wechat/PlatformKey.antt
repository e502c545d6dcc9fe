-- ===== src/Wechat/PlatformKey.antt =====
-- The settings of gobackend/wechat/config.go that depend on the files beside the program: the
-- merchant's number and the platform's public key.
use guangyang.Prelude.{
  Bool, ◌&&◌, ◌||◌, Option, none, some, List, [], ◌∷◌, ltb, is_some, if◌then◌else◌,
}
use guangyang.Text.{Str, codes, ◌===◌, trim_space, contains}
use guangyang.Excel.Fingerprint.{byte_length}
use guangyang.Text.Path.{join}
use guangyang.Disk.{Disk, Machine, content, read}
use guangyang.Wechat.Settings.{or_next, infer_from_apikey_file}
use guangyang.Wechat.CertFind.{infer_mch_id_from_cert_zip}
use guangyang.Wechat.CertZip.{wechatpay_cert_cache_dir}

-- The key of the environment is no more than its first and its last line.
unfoldable pub is_truncated : Str → Bool
unfolding byte_length contains
is_truncated v =
    ltb (byte_length v) 200
    && contains (codes "BEGIN PUBLIC KEY") v
    && contains (codes "END PUBLIC KEY") v

-- The content of a file, if there is one.
unfoldable pub trimmed : Option Str → Str
unfolding trim_space
trimmed none = []
trimmed (some s) = trim_space s

module _ (os : Machine) where
  -- os.ReadFile, with none for an error.
  abbrev pub file_text : Disk → Str → Option Str
  file_text d p = if is_some (os.refused read p d) then none else content p d

  -- readWechatMchID
  unfoldable pub read_wechat_mch_id : Disk → Str
  unfolding infer_mch_id_from_cert_zip trim_space
  read_wechat_mch_id d =
      or_next (trim_space (os.env (codes "WECHAT_MCHID"))) (infer_mch_id_from_cert_zip os d)

  -- readWechatNotifyURL
  unfoldable pub read_wechat_notify_url : Str
  unfolding trim_space
  read_wechat_notify_url = trim_space (os.env (codes "WECHAT_NOTIFY_URL"))

  unfoldable pub first_text : Disk → List Str → Str
  unfolding trimmed ◌===◌
  first_text d [] = []
  first_text d (p ∷ ps) = or_next (trimmed (file_text d p)) (first_text d ps)
    where
      trimmed : Option Str → Str
      trimmed none = []
      trimmed (some s) = trim_space s

  abbrev key_paths : List Str
  key_paths =
      codes "wechatpay/cert/platform_public_key.pem"
      ∷ codes "wechatpay/cert/pub_key.pem"
      ∷ codes "../wechatpay/cert/platform_public_key.pem"
      ∷ codes "../wechatpay/cert/pub_key.pem"
      ∷ join (wechatpay_cert_cache_dir os ∷ codes "platform_public_key.pem" ∷ [])
      ∷ join (wechatpay_cert_cache_dir os ∷ codes "pub_key.pem" ∷ [])
      ∷ []

  -- readWechatPlatformPublicKeyPEM
  unfoldable pub read_wechat_platform_public_key_pem : Disk → Str
  unfolding is_truncated first_text infer_from_apikey_file trim_space ◌===◌
  read_wechat_platform_public_key_pem d =
      let v = trim_space (os.env (codes "WECHAT_PLATFORM_PUBLIC_KEY")) in
      let stored =
        or_next (infer_from_apikey_file os.env (file_text d) (codes "WECHAT_PLATFORM_PUBLIC_KEY"))
          (first_text d key_paths) in
      if v === [] || is_truncated v then stored else v
