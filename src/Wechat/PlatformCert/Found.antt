-- ===== src/Wechat/PlatformCert/Found.antt =====
-- The path that is given for the platform's certificate is that of a file.
use guangyang.Prelude.{
  ◌≡◌, true, Option, none, some, List, [], ◌∷◌, subst, Bool-cases, inl, inr, if◌then◌else◌,
}
use guangyang.Text.{Str}
use guangyang.Errors.{Result, ok, err}
use guangyang.Disk.{Disk, Machine, stat_file, mkdir_all}
use guangyang.Wechat.CertFind.{find_latest_wechatpay_cert_zip, find_latest_wechatpay_any_zip}
use guangyang.Wechat.CertZip.{wechatpay_cert_cache_dir, extract_wechatpay_cert_zip, platform_in}
use guangyang.Wechat.PlatformCert.{
  try_zips, platform_cert_paths, first_file, extract_platform_cert, resolve_by,
  resolve_wechatpay_platform_cert_path,
}

module _ (os : Machine) where
  abbrev Finds : Result Str × Disk → Type 0
  Finds (ok p, d) = stat_file os p d ≡ true
  Finds (err e, d) = Unit {0}

  abbrev IsFile : Option Str → Disk → Type 0
  IsFile none d = Unit {0}
  IsFile (some p) d = stat_file os p d ≡ true

  first_file-IsFile : (ps : List Str) (d : Disk) → IsFile (first_file os ps d) d
  unfolding first_file
  first_file-IsFile [] d = tt
  first_file-IsFile (p ∷ ps) d = elim (Bool-cases (stat_file os p d)) [
    | inl there ↦ rw there there
    | inr missing ↦ rw missing (first_file-IsFile ps d)
  ]

  found-Finds :
      (p : Str) (d : Disk) (rest : Result Str × Disk)
      → Finds rest
      → Finds (if stat_file os p d then (ok p, d) else rest)
  found-Finds p d rest h = elim (Bool-cases (stat_file os p d)) [
    | inl there ↦ rw there there
    | inr missing ↦ rw missing h
  ]

  extract_platform_cert-Finds :
      (cache : Str) (zs : List Str) (d : Disk) → Finds (extract_platform_cert os cache zs d)
  unfolding extract_platform_cert
  extract_platform_cert-Finds cache [] d = tt
  extract_platform_cert-Finds cache (z ∷ zs) d =
      let d' = (extract_wechatpay_cert_zip os z cache (mkdir_all os cache d).1).1 in
      found-Finds (platform_in cache) d' _ (extract_platform_cert-Finds cache zs d')

  resolve_by-Finds : (o : Option Str) (d : Disk) → IsFile o d → Finds (resolve_by os o d)
  unfolding resolve_by
  resolve_by-Finds none d h =
      extract_platform_cert-Finds (wechatpay_cert_cache_dir os)
        (try_zips (find_latest_wechatpay_cert_zip os d) (find_latest_wechatpay_any_zip os d)) d
  resolve_by-Finds (some p) d h = h

  resolve-Finds : (d : Disk) → Finds (resolve_wechatpay_platform_cert_path os d)
  unfolding resolve_wechatpay_platform_cert_path
  resolve-Finds d = resolve_by-Finds _ d (first_file-IsFile (platform_cert_paths os) d)

  -- A path for the platform's certificate is given only if a file is there, on the disk as the
  -- extraction of archives has left it.
  pub resolve_wechatpay_platform_cert_path-IsFile :
      (d d' : Disk) (p : Str)
      → resolve_wechatpay_platform_cert_path os d ≡ (ok p, d')
      → stat_file os p d' ≡ true
  resolve_wechatpay_platform_cert_path-IsFile d d' p h = subst Finds h (resolve-Finds d)
