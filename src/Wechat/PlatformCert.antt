-- ===== src/Wechat/PlatformCert.antt =====
-- gobackend/wechat/paths.go: where the platform's certificate is looked for.
pub mod Found
use guangyang.Prelude.{◌||◌, Option, none, some, List, [], ◌∷◌, if◌then◌else◌}
use guangyang.Text.{Str, codes, ◌===◌}
use guangyang.Errors.{GoError, new, ok, err}
use guangyang.Disk.{Disk, Machine, Action, stat_file, mkdir_all}
use guangyang.Wechat.CertFind.{find_latest_wechatpay_cert_zip, find_latest_wechatpay_any_zip}
use guangyang.Wechat.CertZip.{wechatpay_cert_cache_dir, extract_wechatpay_cert_zip, platform_in}

-- The archives to try: the merchant's, then any other that is newest.
unfoldable pub try_zips : Str → Str → List Str
unfolding ◌===◌
try_zips merchant any =
    if merchant === []
    then (if any === [] then [] else any ∷ [])
    else if any === [] || merchant === any
    then merchant ∷ []
    else merchant ∷ any ∷ []

module _ (os : Machine) where
  unfoldable pub first_file : List Str → Disk → Option Str
  unfolding stat_file
  first_file [] d = none
  first_file (p ∷ ps) d = if stat_file os p d then some p else first_file ps d

  abbrev no_platform_cert : GoError
  no_platform_cert = new (
      codes
        "缺少平台证书文件 platform_cert.pem（可放在 wechatpay/cert/ 下，或仅放置 *_cert.zip 让程序自动解压到 tmp 缓存）；也可改用平台公钥模式：配置 WECHAT_PLATFORM_PUBLIC_KEY（或放置 wechatpay/cert/platform_public_key.pem）")

  -- The loop over the archives; the errors of the extraction are dropped.
  unfoldable pub extract_platform_cert : Str → List Str → Action Str
  unfolding stat_file mkdir_all extract_wechatpay_cert_zip
  extract_platform_cert cache [] d = (err no_platform_cert, d)
  extract_platform_cert cache (z ∷ zs) d =
      let d' = (extract_wechatpay_cert_zip os z cache (mkdir_all os cache d).1).1 in
      let rest = extract_platform_cert cache zs d' in
      if stat_file os (platform_in cache) d' then (ok (platform_in cache), d') else rest

  unfoldable pub resolve_by : Option Str → Action Str
  unfolding extract_platform_cert try_zips find_latest_wechatpay_cert_zip
      find_latest_wechatpay_any_zip wechatpay_cert_cache_dir
  resolve_by (some p) d = (ok p, d)
  resolve_by none d =
      extract_platform_cert (wechatpay_cert_cache_dir os)
        (try_zips (find_latest_wechatpay_cert_zip os d) (find_latest_wechatpay_any_zip os d)) d

  -- The candidates on disk.
  unfoldable pub platform_cert_paths : List Str
  unfolding wechatpay_cert_cache_dir
  platform_cert_paths =
      codes "wechatpay/cert/platform_cert.pem"
      ∷ codes "../wechatpay/cert/platform_cert.pem"
      ∷ platform_in (wechatpay_cert_cache_dir os)
      ∷ []

  -- resolveWechatpayPlatformCertPath
  unfoldable pub resolve_wechatpay_platform_cert_path : Action Str
  unfolding first_file resolve_by platform_cert_paths
  resolve_wechatpay_platform_cert_path d = resolve_by (first_file platform_cert_paths d) d
