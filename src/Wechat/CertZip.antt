-- ===== src/Wechat/CertZip.antt =====
-- gobackend/wechat/certzip.go: where the merchant's key and certificate are looked for, and their
-- extraction from an archive.
pub mod Kept
pub mod Ready
use guangyang.Prelude.{
  ℕ, ◌≡◌, Bool, true, false, ◌&&◌, ◌||◌, not, Option, none, some, List, [], ◌∷◌, ◌++◌, ltb,
  if◌then◌else◌, is_some,
}
use guangyang.Text.{Str, codes, ◌===◌, trim_space}
use guangyang.Text.Path.{join}
use guangyang.Errors.{GoError, new, wrap, Result, ok, err}
use guangyang.Disk.{
  Disk, Entry, DirEntry, Machine, Action, ◌>>=◌, ◌>>◌, open_entry, info, dir, stat_file, list_dir,
  mkdir_all, create_file, copy_to, open_zip_reader, unless_refused,
}
use guangyang.Wechat.CertName.{
  cert_zip_id, is_cert_zip, is_any_zip, merchant_key, merchant_cert, platform_cert, out_name,
}
use guangyang.Wechat.CertFind.{find_latest_wechatpay_cert_zip}

-- The paths of the three files in a directory.
abbrev pub key_in : Str → Str
key_in at = join (at ∷ merchant_key ∷ [])

abbrev pub cert_in : Str → Str
cert_in at = join (at ∷ merchant_cert ∷ [])

abbrev pub platform_in : Str → Str
platform_in at = join (at ∷ platform_cert ∷ [])

-- The paths of the key, of the certificate and, if there is one, of the platform's certificate.
abbrev pub PemPaths : Type 0
PemPaths = Str × Str × Str

abbrev pub wrap_err : {A : Type 0} → Str → Result A → Result A
wrap_err p (ok a) = ok a
wrap_err p (err e) = err (wrap p e)

-- The action, with a prefix before its error.
abbrev pub wrapped : {A : Type 0} → Str → Action A → Action A
wrapped p m d = (wrap_err p (m d).0, (m d).1)

module _ (os : Machine) where
  -- wechatpayTmpRoot
  unfoldable pub wechatpay_tmp_root : Str
  unfolding trim_space ◌===◌
  wechatpay_tmp_root =
      let v = trim_space (os.env (codes "TMP_ROOT")) in if v === [] then codes "./tmp" else v

  -- wechatpayCertCacheDir
  unfoldable pub wechatpay_cert_cache_dir : Str
  unfolding wechatpay_tmp_root join
  wechatpay_cert_cache_dir = join (wechatpay_tmp_root ∷ codes "wechatpay_cache" ∷ codes "cert" ∷ [])

  -- fileExists
  unfoldable pub file_exists : Str → Disk → Bool
  unfolding stat_file ◌===◌
  file_exists p d = if p === [] then false else stat_file os p d

  -- f.Open of an entry of the archive
  unfoldable pub open_entry_of : Entry → Action Str
  open_entry_of e d = (unless_refused (os.refused open_entry e.name d) (ok e.body), d)

  unfoldable pub write_entry : Str → Entry → Action Unit
  unfolding open_entry_of mkdir_all create_file copy_to dir
  write_entry out e = do
    body ← open_entry_of e
    mkdir_all os (dir out)
    create_file os out
    copy_to os out body

  unfoldable pub extract_entry : Str → Entry → Option Str → Action Unit
  unfolding write_entry join
  extract_entry dest e none d = (ok tt, d)
  extract_entry dest e (some out) d = write_entry (join (dest ∷ out ∷ [])) e d

  unfoldable pub extract_entries : Str → List Entry → Action Unit
  unfolding extract_entry out_name
  extract_entries dest [] d = (ok tt, d)
  extract_entries dest (e ∷ es) d =
      (extract_entry dest e (if e.is_dir then none else out_name e.name) >> extract_entries dest es)
        d

  -- extractWechatpayCertZip
  unfoldable pub extract_wechatpay_cert_zip : Str → Str → Action Unit
  unfolding open_zip_reader extract_entries
  extract_wechatpay_cert_zip zip_path dest = do
    entries ← wrapped (codes "打开 cert.zip 失败: ") (λ d. (open_zip_reader os zip_path d, d))
    extract_entries dest entries

  -- The three paths, without the last if there is no such file.
  unfoldable pub pem_paths : Str → Disk → PemPaths
  pem_paths at d =
      (key_in at, cert_in at, if file_exists (platform_in at) d then platform_in at else [])

  abbrev pub has_pair : Str → Disk → Bool
  has_pair at d = file_exists (key_in at) d && file_exists (cert_in at) d

  -- The last look at the cache.
  unfoldable pub checked_paths : Str → Str → Action PemPaths
  unfolding pem_paths
  checked_paths zip_path cache d = (
    if has_pair cache d
        then ok (pem_paths cache d)
        else err (
            new (
              codes "已解压 cert.zip 但仍缺少 merchant_key.pem/merchant_cert.pem（zip="
              ++ zip_path
              ++ codes "）")),
    d,
  )

  unfoldable pub ensure_extracted : Str → Str → Action PemPaths
  unfolding extract_wechatpay_cert_zip mkdir_all checked_paths ◌===◌
  ensure_extracted zip_path cache d =
      if zip_path === []
      then (
        err (
            new (
              codes
                "缺少商户证书文件：请在 wechatpay/cert/ 下放置 merchant_key.pem、merchant_cert.pem，或放置 <mchid>_YYYYMMDD_cert.zip 以便自动解压")),
        d,
      )
      else (do
        wrapped (codes "创建证书缓存目录失败: ") (mkdir_all os cache)
        extract_wechatpay_cert_zip zip_path cache
        checked_paths zip_path cache)
          d

  -- ensureWechatpayMerchantPemFiles
  unfoldable pub ensure_wechatpay_merchant_pem_files : Action PemPaths
  unfolding file_exists pem_paths wechatpay_cert_cache_dir find_latest_wechatpay_cert_zip
      ensure_extracted
  ensure_wechatpay_merchant_pem_files d =
      if has_pair (codes "wechatpay/cert") d
      then (ok (pem_paths (codes "wechatpay/cert") d), d)
      else if has_pair (codes "../wechatpay/cert") d
      then (ok (pem_paths (codes "../wechatpay/cert") d), d)
      else if has_pair wechatpay_cert_cache_dir d
      then (ok (pem_paths wechatpay_cert_cache_dir d), d)
      else ensure_extracted (find_latest_wechatpay_cert_zip os d) wechatpay_cert_cache_dir d
