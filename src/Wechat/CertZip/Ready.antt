-- ===== src/Wechat/CertZip/Ready.antt =====
-- The paths that the certificate functions give are those of files.
use guangyang.Prelude.{
  ◌≡◌, refl, ◌⊎◌, Bool, true, ◌&&◌, [], subst, arith, Bool-cases, inl, inr, if◌then◌else◌,
}
use guangyang.Text.{Str, codes, ◌===◌}
use guangyang.Errors.{Result, ok, err}
use guangyang.Disk.{Disk, Machine, Action, ◌>>=◌, ◌>>◌, mkdir_all}
use guangyang.Wechat.CertFind.{find_latest_wechatpay_cert_zip}
use guangyang.Wechat.CertZip.{
  PemPaths, file_exists, pem_paths, platform_in, has_pair, wrapped, checked_paths, ensure_extracted,
  extract_wechatpay_cert_zip, ensure_wechatpay_merchant_pem_files, wechatpay_cert_cache_dir,
}

and_left : (a b : Bool) → (a && b) ≡ true → a ≡ true
and_left a b h = ground arith

and_right : (a b : Bool) → (a && b) ≡ true → b ≡ true
and_right a b h = ground arith

module _ (os : Machine) where
  -- The key and the certificate are there as files, and so is the platform's certificate if its path
  -- is given.
  pub IsReady : PemPaths → Disk → Type 0
  IsReady (key, cert, platform) d =
      (file_exists os key d ≡ true)
      × (file_exists os cert d ≡ true)
      × ((platform ≡ []) ⊎ (file_exists os platform d ≡ true))

  abbrev Gives : Result PemPaths × Disk → Type 0
  Gives (ok paths, d) = IsReady paths d
  Gives (err e, d) = Unit {0}

  pem_paths-IsReady :
      (at : Str) (d : Disk) → has_pair os at d ≡ true → IsReady (pem_paths os at d) d
  unfolding pem_paths IsReady
  pem_paths-IsReady at d h = elim (Bool-cases (file_exists os (platform_in at) d)) [
    | inl there ↦ rw there (and_left _ _ h, and_right _ _ h, inr there)
    | inr missing ↦ rw missing (and_left _ _ h, and_right _ _ h, inl refl)
  ]

  after_Gives :
      {A : Type 0} (r : Result A) (d' : Disk) (f : A → Action PemPaths)
      → ((a : A) → Gives (f a d'))
      → Gives (elim r as (λ _. Result PemPaths × Disk) [ ok a ↦ f a d' | err e ↦ (err e, d') ])
  after_Gives (ok a) d' f h = h a
  after_Gives (err e) d' f h = tt

  >>=-Gives :
      {A : Type 0} (m : Action A) (f : A → Action PemPaths) (d : Disk)
      → ((a : A) (d' : Disk) → Gives (f a d'))
      → Gives ((m >>= f) d)
  >>=-Gives m f d h = after_Gives (m d).0 (m d).1 f (λ a. h a (m d).1)

  -- A test for the pair decides what is given.
  found-Gives :
      (at : Str) (d : Disk) (r : Result PemPaths × Disk)
      → Gives r
      → Gives (if has_pair os at d then (ok (pem_paths os at d), d) else r)
  found-Gives at d r h = elim (Bool-cases (has_pair os at d)) [
    | inl there ↦ rw there (pem_paths-IsReady at d there)
    | inr missing ↦ rw missing h
  ]

  checked_paths-Gives : (zip_path at : Str) (d : Disk) → Gives (checked_paths os zip_path at d)
  unfolding checked_paths
  checked_paths-Gives zip_path at d = elim (Bool-cases (has_pair os at d)) [
    | inl there ↦ rw there (pem_paths-IsReady at d there)
    | inr missing ↦ rw missing tt
  ]

  ensure_extracted-Gives :
      (zip_path cache : Str) (d : Disk) → Gives (ensure_extracted os zip_path cache d)
  unfolding ensure_extracted
  ensure_extracted-Gives zip_path cache d = elim (Bool-cases (zip_path === [])) [
    | inl empty ↦ rw empty tt
    | inr found ↦ rw found (
        >>=-Gives (wrapped (codes "创建证书缓存目录失败: ") (mkdir_all os cache))
          (λ _. extract_wechatpay_cert_zip os zip_path cache >> checked_paths os zip_path cache) d
          λ _ d'.
            >>=-Gives (extract_wechatpay_cert_zip os zip_path cache)
              (λ _. checked_paths os zip_path cache) d' λ _. checked_paths-Gives zip_path cache)
  ]

  ensure-Gives : (d : Disk) → Gives (ensure_wechatpay_merchant_pem_files os d)
  unfolding ensure_wechatpay_merchant_pem_files
  ensure-Gives d = found-Gives (codes "wechatpay/cert") d _ (
      found-Gives (codes "../wechatpay/cert") d _ (
        found-Gives (wechatpay_cert_cache_dir os) d _ (
          ensure_extracted-Gives (find_latest_wechatpay_cert_zip os d) (wechatpay_cert_cache_dir os)
            d)))

  -- When the certificates are said to be ready, they are: the key and the certificate at the paths
  -- that are given are files on the disk as it then is, and so is the platform's certificate unless
  -- its path is empty; whether they were mounted, cached or taken from an archive.
  pub ensure_wechatpay_merchant_pem_files-IsReady :
      (d d' : Disk) (paths : PemPaths)
      → ensure_wechatpay_merchant_pem_files os d ≡ (ok paths, d')
      → IsReady paths d'
  ensure_wechatpay_merchant_pem_files-IsReady d d' paths h = subst Gives h (ensure-Gives d)
