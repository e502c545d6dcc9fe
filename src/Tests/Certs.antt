-- ===== src/Tests/Certs.antt =====
-- Certificates, the verifier, PEM texts and the conversion of workbooks, on small disks.
use guangyang.Prelude.{◌≡◌, refl, ◌↔◌, true, false, List, [], ◌∷◌, ◌++◌, none, some, if◌then◌else◌}
use guangyang.Text.{Str, codes, ◌===◌, trim_space}
use guangyang.Text.Path.{join}
use guangyang.Errors.{new, ok}
use guangyang.Excel.StrMap.{lookup, assign}
use guangyang.Disk.{Disk, file, folder, Machine, Entry, content}
use guangyang.Disk.Contents.{content-assign_ne}
use guangyang.Wechat.CertName.{cert_zip_id}
use guangyang.Wechat.CertName.RoundTrip.{Names, cert_zip_id_iff}
use guangyang.Wechat.CertFind.{newest}
use guangyang.Wechat.CertFind.Newest.{IsNewest, newest-IsNewest}
use guangyang.Wechat.CertZip.{extract_wechatpay_cert_zip, ensure_wechatpay_merchant_pem_files}
use guangyang.Wechat.CertZip.Kept.{extract_wechatpay_cert_zip-Keeps}
use guangyang.Wechat.CertZip.Ready.{IsReady, ensure_wechatpay_merchant_pem_files-IsReady}
use guangyang.Wechat.Crypto.{Crypto}
use guangyang.Wechat.Verifier.{PlatformVerifier, Header, verify, load_wechatpay_verifier}
use guangyang.Wechat.Verifier.Accepts.{IsSigned, verify-IsSigned}
use guangyang.Wechat.Verifier.Loaded.{IsLoaded, load_wechatpay_verifier-IsLoaded}
use guangyang.Wechat.PemText.{escaped, double_escaped, unescape_newlines}
use guangyang.Wechat.PemText.Escapes.{write_newlines, unescape_newlines-write_newlines}
use guangyang.Compare.Convert.{Converter, convert_xls_if_needed}
use guangyang.Compare.Convert.Safe.{IsSound, apart_sym, convert_xls_if_needed-IsSound}

abbrev entry : Str → Str → Entry
entry name body = record { name = name; is_dir = false; body = body }

-- Nothing is refused; every archive holds a key, a certificate and a name that points elsewhere.
abbrev machine : Machine
machine = record {
  env = λ _. [];
  refused = λ _ _ _. none;
  absent = λ _ p. new p;
  written = λ _ _. 0;
  now = λ _. 9;
  unzip = λ _. ok (
      entry (codes "m/apiclient_key.pem") (codes "K")
      ∷ entry (codes "m/apiclient_cert.pem") (codes "C")
      ∷ entry (codes "../../etc/passwd") (codes "X")
      ∷ []);
}

abbrev zip_path : Str
zip_path = codes "wechatpay/cert/1900000001_20260131_cert.zip"

abbrev disk : Disk
disk =
    (codes "wechatpay/cert/1_20250131_cert.zip", file (codes "old") 1)
    ∷ (zip_path, file (codes "zip") 5)
    ∷ (codes "etc/passwd", file (codes "root") 2)
    ∷ []

extract_wechatpay_cert_zip-Keeps_example :
    content
      (codes "etc/passwd")
      (extract_wechatpay_cert_zip machine zip_path (codes "tmp/cert") disk).1
    ≡ content (codes "etc/passwd") disk
unfolding join ◌===◌
extract_wechatpay_cert_zip-Keeps_example =
    extract_wechatpay_cert_zip-Keeps machine (codes "tmp/cert") (codes "etc/passwd") zip_path refl
      refl refl disk

-- The disk after the key and the certificate were taken from the newer archive.
abbrev extracted : Disk
extracted =
    disk
    ++ (codes "tmp", folder)
      ∷ (codes "tmp/wechatpay_cache", folder)
      ∷ (codes "tmp/wechatpay_cache/cert", folder)
      ∷ (codes "tmp/wechatpay_cache/cert/merchant_key.pem", file (codes "K") 9)
      ∷ (codes "tmp/wechatpay_cache/cert/merchant_cert.pem", file (codes "C") 9)
      ∷ []

abbrev ready_paths : Str × Str × Str
ready_paths = (
  codes "tmp/wechatpay_cache/cert/merchant_key.pem",
  codes "tmp/wechatpay_cache/cert/merchant_cert.pem",
  [],
)

ensure_wechatpay_merchant_pem_files-IsReady_example : IsReady machine ready_paths extracted
unfolding ensure_wechatpay_merchant_pem_files lookup assign
ensure_wechatpay_merchant_pem_files-IsReady_example =
    ensure_wechatpay_merchant_pem_files-IsReady machine disk extracted ready_paths refl

cert_zip_id_iff_example :
    (cert_zip_id (codes "1900000001_20260131_cert.zip") ≡ some (codes "1900000001"))
    ↔ Names (codes "1900000001_20260131_cert.zip") (codes "1900000001")
cert_zip_id_iff_example =
    cert_zip_id_iff (codes "1900000001_20260131_cert.zip") (codes "1900000001")

newest-IsNewest_example :
    IsNewest machine
      (λ at name. cert_zip_id name)
      disk
      (newest machine (λ at name. cert_zip_id name) disk)
newest-IsNewest_example = newest-IsNewest machine (λ at name. cert_zip_id name) disk

-- Keys and certificates are texts; a signature is good if it is the key before the text.
abbrev toy : Crypto
toy = record {
  RsaKey = Str;
  PrivateKey = Str;
  Certificate = Str;
  base64 = λ s. ok s;
  text = λ s. s;
  pem_block = λ s. some s;
  parse_pkix = λ s. ok (some s);
  parse_pkcs1 = λ s. ok s;
  parse_pkcs8 = λ s. ok (some s);
  parse_certificate = λ s. ok s;
  cert_key = λ s. some s;
  serial = λ s. s;
  common_name = λ s. s;
  organization = λ s. s;
  sha256 = λ s. s;
  hex = λ s. s;
  verify_pkcs1v15 =
      λ key digest sig. if sig === key ++ digest then none else some (new (codes "bad"));
  gcm_open = λ key nonce ct ad. ok ct;
}

abbrev verifier : PlatformVerifier toy
verifier = record {
  platform_cert = none;
  platform_cert_serial = [];
  platform_public_key = some (codes "k");
  platform_public_key_id = [];
}

abbrev header : Header
header field = if field === codes "Wechatpay-Signature" then codes "k1\n1\n{}\n" else codes "1"

verify-IsSigned_example :
    (verify toy verifier header (codes "{}") ≡ none) ↔ IsSigned toy verifier header (codes "{}")
verify-IsSigned_example = verify-IsSigned toy verifier header (codes "{}")

abbrev key_disk : Disk
key_disk = (codes "wechatpay/cert/pub_key.pem", file (codes "k") 1) ∷ []

load_wechatpay_verifier-IsLoaded_example : IsLoaded toy machine verifier key_disk key_disk
unfolding load_wechatpay_verifier lookup trim_space ◌===◌
load_wechatpay_verifier-IsLoaded_example =
    load_wechatpay_verifier-IsLoaded toy machine verifier key_disk key_disk refl

unescape_newlines-write_newlines_example :
    (unescape_newlines (write_newlines escaped (codes "a\nb")) ≡ codes "a\nb")
    × (unescape_newlines (write_newlines double_escaped (codes "a\nb")) ≡ codes "a\nb")
    × (unescape_newlines (write_newlines (b'\r' ∷ b'\n' ∷ []) (codes "a\nb")) ≡ codes "a\nb")
unescape_newlines-write_newlines_example =
    unescape_newlines-write_newlines (codes "a\nb") (refl, (refl, (refl, tt)))
      (refl, (refl, (refl, tt)))

abbrev last : List Str → Str
last [] = []
last (a ∷ []) = a
last (a ∷ b ∷ args) = last (b ∷ args)

last-append : (args : List Str) (out : Str) → last (args ++ out ∷ []) ≡ out
last-append [] out = refl
last-append (a ∷ []) out = refl
last-append (a ∷ b ∷ args) out = last-append (b ∷ args) out

-- The converter writes its output where its last argument says.
abbrev converter : Converter
converter = record {
  look_path = λ bin. none;
  header = λ p d. [];
  run = λ bin args t d. (
    record { output = []; timed_out = false; failure = none },
    assign (last args) (file (codes "new") 9) d,
  );
  stat_error = λ p d. new p;
  quoted = λ s. s;
}

abbrev book_disk : Disk
book_disk = (codes "a.xls", file (codes "old") 1) ∷ []

convert_xls_if_needed-IsSound_example :
    IsSound machine converter
      (codes "a.xls")
      (content (codes "a.xls") book_disk)
      (convert_xls_if_needed machine converter (codes "a.xls") book_disk).0
      (convert_xls_if_needed machine converter (codes "a.xls") book_disk).1
unfolding ◌===◌
convert_xls_if_needed-IsSound_example =
    convert_xls_if_needed-IsSound machine converter (codes "a.xls") book_disk
      (λ bin args out path t d apart.
        rw (last-append args out)
          (content-assign_ne path out (file (codes "new") 9) d (apart_sym path out apart)))

-- The original is gone, and the output there.
converted : convert_xls_if_needed machine converter (codes "a.xls") book_disk ≡ (
  record { out_path = codes "a.xlsx"; converted = true; error = none },
  (codes "a.xlsx", file (codes "new") 9) ∷ [],
)
unfolding convert_xls_if_needed assign lookup
converted = refl
