-- ===== src/Wechat/CertZip/Kept.antt =====
-- The extraction of an archive changes three files and no other, whatever its entries are called.
use guangyang.Prelude.{
  ◌≡◌, refl, Bool, ◌&&◌, true, false, ◌||◌, Option, none, some, List, [], ◌∷◌, if◌then◌else◌,
}
use guangyang.Text.{Str, codes, ◌===◌, to_lower, contains}
use guangyang.Text.Path.{join, base}
use guangyang.Disk.{Entry, Machine, ◌>>◌, mkdir_all, create_file, copy_to, open_zip_reader, dir}
use guangyang.Disk.Contents.{
  Keeps, >>=-Keeps, content-mkdir_all, content-create_file, content-copy_to,
}
use guangyang.Wechat.CertName.{out_name, out_name_of, has_suffix}
use guangyang.Wechat.CertZip.{
  key_in, cert_in, platform_in, open_entry_of, write_entry, extract_entry, extract_entries,
  extract_wechatpay_cert_zip, wrapped,
}

module _ (os : Machine) (dest q : Str) where
  abbrev Outside : Option Str → Type 0
  Outside none = Unit {0}
  Outside (some out) = (join (dest ∷ out ∷ []) === q) ≡ false

  if-Outside : (b : Bool) (x y : Option Str) → Outside x → Outside y → Outside (if b then x else y)
  if-Outside true x y hx hy = hx
  if-Outside false x y hx hy = hy

  write_entry-Keeps : (out : Str) (e : Entry) → (out === q) ≡ false → Keeps q (write_entry os out e)
  unfolding write_entry open_entry_of
  write_entry-Keeps out e h =
      >>=-Keeps q (open_entry_of os e)
        (λ body. mkdir_all os (dir out) >> (create_file os out >> copy_to os out body)) (λ d. refl)
        λ body.
          >>=-Keeps q (mkdir_all os (dir out)) (λ _. create_file os out >> copy_to os out body)
            (content-mkdir_all os q (dir out))
            λ _.
              >>=-Keeps q (create_file os out) (λ _. copy_to os out body)
                (λ d. content-create_file os q out d h) λ _ d. content-copy_to os q out body d h

  extract_entry-Keeps :
      (e : Entry) (out : Option Str) → Outside out → Keeps q (extract_entry os dest e out)
  unfolding extract_entry
  extract_entry-Keeps e none h d = refl
  extract_entry-Keeps e (some out) h d = write_entry-Keeps (join (dest ∷ out ∷ [])) e h d

  module _ (not_key : (key_in dest === q) ≡ false) (not_cert : (cert_in dest === q) ≡ false)
      (not_platform : (platform_in dest === q) ≡ false) where
    out_name-Outside : (lower : Str) → Outside (out_name_of lower)
    unfolding out_name_of
    out_name-Outside lower =
        if-Outside (lower === codes "apiclient_key.pem" || contains (codes "merchant_key") lower) _
          _ not_key
          (if-Outside
            (lower === codes "apiclient_cert.pem" || contains (codes "merchant_cert") lower) _ _
            not_cert
            (if-Outside (contains (codes "platform") lower && has_suffix (codes ".pem") lower) _ _
              not_platform tt))

    target-Outside : (is_dir : Bool) (name : Str) → Outside (if is_dir then none else out_name name)
    unfolding out_name
    target-Outside true name = tt
    target-Outside false name = out_name-Outside (to_lower (base name))

    extract_entries-Keeps : (es : List Entry) → Keeps q (extract_entries os dest es)
    unfolding extract_entries
    extract_entries-Keeps [] d = refl
    extract_entries-Keeps (e ∷ es) d =
        >>=-Keeps q (extract_entry os dest e (if e.is_dir then none else out_name e.name))
          (λ _. extract_entries os dest es)
          (extract_entry-Keeps e _ (target-Outside e.is_dir e.name)) (λ _. extract_entries-Keeps es)
          d

  -- However the extraction ends, and whatever the archive holds, a file that is not one of
  -- merchant_key.pem, merchant_cert.pem and platform_cert.pem in the target directory is left as it was.
  pub extract_wechatpay_cert_zip-Keeps :
      (zip_path : Str)
      → (key_in dest === q) ≡ false
      → (cert_in dest === q) ≡ false
      → (platform_in dest === q) ≡ false
      → Keeps q (extract_wechatpay_cert_zip os zip_path dest)
  unfolding extract_wechatpay_cert_zip
  extract_wechatpay_cert_zip-Keeps zip_path k c p =
      >>=-Keeps q (wrapped (codes "打开 cert.zip 失败: ") (λ d. (open_zip_reader os zip_path d, d)))
        (extract_entries os dest) (λ d. refl) (extract_entries-Keeps k c p)
