-- ===== src/Wechat/Verifier.antt =====
-- The verifier of gobackend/wechat/verify.go, and the settings of config.go that it is loaded from.
pub mod Accepts
pub mod Loaded
use guangyang.Prelude.{
  ◌≡◌, Bool, true, false, not, ◌&&◌, ◌||◌, Option, none, some, List, [], ◌∷◌, ◌++◌, ltb, is_some,
  if◌then◌else◌,
}
use guangyang.Text.{Str, codes, ◌===◌, trim_space, to_upper, contains}
use guangyang.Errors.{GoError, new, wrap, Result, ok, err}
use guangyang.Excel.Fingerprint.{byte_length}
use guangyang.Text.Path.{join}
use guangyang.Disk.{Disk, Machine, Action, stat_file, content, read, unless_refused}
use guangyang.Wechat.Settings.{or_next, infer_from_apikey_file, read_wechat_platform_public_key_id}
use guangyang.Wechat.PlatformKey.{
  file_text, read_wechat_mch_id, read_wechat_platform_public_key_pem,
}
use guangyang.Wechat.CertZip.{wechatpay_cert_cache_dir}
use guangyang.Wechat.PlatformCert.{resolve_wechatpay_platform_cert_path}
use guangyang.Wechat.Crypto.{Crypto, Bytes}
use guangyang.Wechat.Pem.{parse_rsa_public_key_from_pem, load_x509_cert_from_path}

-- wechatpayVerifier
pub record Verifier (RsaKey Certificate : Type 0) : Type 0 where
  pub platform_cert : Option Certificate
  pub platform_cert_serial : Str
  pub platform_public_key : Option RsaKey
  pub platform_public_key_id : Str

-- The fields of a request that is checked: Header.Get.
abbrev pub Header : Type 0
Header = Str → Str

-- The text that is signed.
abbrev pub signed_text : Str → Str → Str → Str
signed_text ts nonce body = ts ++ b'\n' ∷ (nonce ++ b'\n' ∷ (body ++ b'\n' ∷ []))

module _ (crypto : Crypto) where
  open crypto use {RsaKey, Certificate}

  abbrev pub PlatformVerifier : Type 0
  PlatformVerifier = Verifier RsaKey Certificate

  abbrev pub ok_of : {A : Type 0} → Result A → Option A
  ok_of (ok a) = some a
  ok_of (err e) = none

  unfoldable pub parsed_key : Result RsaKey → Result (Option RsaKey)
  parsed_key (ok key) = ok (some key)
  parsed_key (err e) = err (wrap (codes "解析 WECHAT_PLATFORM_PUBLIC_KEY 失败: ") e)

  -- The key of the environment or of a file, if there is one.
  unfoldable pub public_key_of : Str → Result (Option RsaKey)
  unfolding parsed_key parse_rsa_public_key_from_pem ◌===◌
  public_key_of pem_text =
      if pem_text === []
      then ok none
      else parsed_key (parse_rsa_public_key_from_pem crypto pem_text)

  -- The file cert.txt holds the certificate of this merchant.
  unfoldable pub looks_like_merchant : Str → Bool → Option Certificate → Bool
  unfolding trim_space contains ◌===◌
  looks_like_merchant mch is_there none = false
  looks_like_merchant mch is_there (some c) =
      not (mch === [])
      && is_there
      && (trim_space (crypto.common_name c) === mch
          || contains (codes "微信商户系统") (trim_space (crypto.organization c)))

  -- Nothing to verify with: the text depends on whether the merchant's certificate was put in its place.
  unfoldable pub no_material : Str → Bool → Option Certificate → GoError
  unfolding looks_like_merchant
  no_material mch is_there cert =
      if looks_like_merchant mch is_there cert
      then new (
          codes
            "缺少平台验签材料：你当前提供的 wechatpay/cert/cert.txt 看起来是【商户证书】(不是平台证书)，无法用于验签。请提供 wechatpay/cert/platform_cert.pem 或提供平台公钥：WECHAT_PLATFORM_PUBLIC_KEY（或放置 wechatpay/cert/platform_public_key.pem）")
      else new (
          codes
            "缺少平台验签材料：请提供 wechatpay/cert/platform_cert.pem，或提供平台公钥 WECHAT_PLATFORM_PUBLIC_KEY（也支持放置 wechatpay/cert/platform_public_key.pem / tmp/wechatpay_cache/cert/platform_public_key.pem）")

  -- A verifier of what was found, unless that is nothing.
  unfoldable pub verifier_of :
      Option Certificate → Str → Option RsaKey → GoError → Result PlatformVerifier
  verifier_of none id none e = err e
  verifier_of (some c) id key e = ok (record {
    platform_cert = some c;
    platform_cert_serial = to_upper (crypto.serial c);
    platform_public_key = key;
    platform_public_key_id = id;
  })
  verifier_of none id (some key) e = ok (record {
    platform_cert = none;
    platform_cert_serial = [];
    platform_public_key = some key;
    platform_public_key_id = id;
  })

  unfoldable pub with_key :
      Option Certificate → Str → Result (Option RsaKey) → GoError → Result PlatformVerifier
  unfolding verifier_of
  with_key cert id (err e) missing = err e
  with_key cert id (ok key) missing = verifier_of cert id key missing

  unfoldable pub cert_at : Machine → Result Str → Disk → Option Certificate
  unfolding load_x509_cert_from_path
  cert_at os (err e) d = none
  cert_at os (ok path) d = ok_of (load_x509_cert_from_path crypto os path d)

  -- What is loaded from the disk as the search for the certificate has left it.
  unfoldable pub load_from : Machine → Result Str → Disk → Result PlatformVerifier
  unfolding cert_at with_key public_key_of no_material read_wechat_platform_public_key_id
      read_wechat_platform_public_key_pem read_wechat_mch_id stat_file load_x509_cert_from_path
      trim_space
  load_from os path d =
      let cert_txt = codes "wechatpay/cert/cert.txt" in
      with_key (cert_at os path d)
        (trim_space (read_wechat_platform_public_key_id os.env (file_text os d)))
        (public_key_of (trim_space (read_wechat_platform_public_key_pem os d)))
        (no_material (trim_space (read_wechat_mch_id os d)) (stat_file os cert_txt d)
          (ok_of (load_x509_cert_from_path crypto os cert_txt d)))

  -- loadWechatpayVerifier
  unfoldable pub load_wechatpay_verifier : Machine → Action PlatformVerifier
  unfolding load_from resolve_wechatpay_platform_cert_path
  load_wechatpay_verifier os d =
      let (path, d') = resolve_wechatpay_platform_cert_path os d in (load_from os path d', d')

  abbrev cert_key_of : Option Certificate → Option RsaKey
  cert_key_of none = none
  cert_key_of (some c) = crypto.cert_key c

  unfoldable pub key_verifies : Option RsaKey → Str → Bytes → Bool
  key_verifies none msg sig = false
  key_verifies (some key) msg sig =
      not (is_some (crypto.verify_pkcs1v15 key (crypto.sha256 msg) sig))

  unfoldable pub verify_decoded : PlatformVerifier → Str → Result Bytes → Option GoError
  unfolding key_verifies
  verify_decoded v msg (err e) = some e
  verify_decoded v msg (ok sig) =
      if key_verifies (cert_key_of v.platform_cert) msg sig
      then none
      else if key_verifies v.platform_public_key msg sig
      then none
      else some (new (codes "验签失败：平台证书/公钥均未通过验证"))

  -- Verify of wechatpayVerifier
  unfoldable pub verify : PlatformVerifier → Header → Str → Option GoError
  unfolding verify_decoded ◌===◌
  verify v h body =
      let ts = h (codes "Wechatpay-Timestamp") in
      let nonce = h (codes "Wechatpay-Nonce") in
      let sig_b64 = h (codes "Wechatpay-Signature") in
      let serial = h (codes "Wechatpay-Serial") in
      if ts === [] || nonce === [] || sig_b64 === [] || serial === []
      then some (new (codes "缺少微信验签头"))
      else verify_decoded v (signed_text ts nonce body) (crypto.base64 sig_b64)
