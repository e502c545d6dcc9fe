-- ===== src/Wechat/Pem.antt =====
-- The reading of keys and certificates in gobackend/wechat/verify.go.
use guangyang.Prelude.{
  Bool, true, false, ◌&&◌, ◌||◌, not, Option, none, some, [], ◌∷◌, ◌++◌, if◌then◌else◌,
}
use guangyang.Text.{Str, codes, trim_space, has_prefix, contains}
use guangyang.Text.Decimal.{format_nat}
use guangyang.Errors.{GoError, new, Result, ok, err}
use guangyang.Excel.Fingerprint.{byte_length}
use guangyang.Disk.{Disk, Machine, read_file}
use guangyang.Wechat.PemText.{
  begin_public, end_public, begin_cert, end_cert, newline, escaped, double_escaped, normalize_pem,
  compact,
}
use guangyang.Wechat.Crypto.{Crypto, Bytes, ◌>>=◌}

abbrev is_empty : Bytes → Bool
is_empty [] = true
is_empty (_ ∷ _) = false

-- The verb %t of fmt.
abbrev truth : Bool → Str
truth true = codes "true"
truth false = codes "false"

module _ (crypto : Crypto) where
  open crypto use {RsaKey, PrivateKey, Certificate}

  unfoldable pub starts_with_pem : Result Bytes → Bool
  unfolding trim_space has_prefix
  starts_with_pem (err e) = false
  starts_with_pem (ok der) =
      not (is_empty der) && has_prefix (codes "-----BEGIN ") (trim_space (crypto.text der))

  -- describeWechatPlatformKeyInput
  unfoldable pub describe_wechat_platform_key_input : Str → Str → Str
  unfolding trim_space contains compact starts_with_pem format_nat byte_length
  describe_wechat_platform_key_input orig normalized =
      let o = trim_space orig in
      let n = trim_space normalized in
      codes "origLen="
      ++ format_nat (byte_length o)
      ++ codes " normLen="
      ++ format_nat (byte_length n)
      ++ codes " beginPub="
      ++ truth (contains begin_public n)
      ++ codes " endPub="
      ++ truth (contains end_public n)
      ++ codes " beginCert="
      ++ truth (contains begin_cert n)
      ++ codes " endCert="
      ++ truth (contains end_cert n)
      ++ codes " hasRealNewline="
      ++ truth (contains newline o || contains (b'\r' ∷ b'\n' ∷ []) o)
      ++ codes " hasEscapedNewline="
      ++ truth (contains escaped o || contains double_escaped o)
      ++ codes " looksBase64OfPem="
      ++ truth (starts_with_pem (crypto.base64 (compact o)))
      ++ codes " sha256="
      ++ crypto.hex (crypto.sha256 n)

  abbrev or_not_rsa : {A : Type 0} → Str → Option A → Result A
  or_not_rsa what none = err (new what)
  or_not_rsa what (some key) = ok key

  -- A public key, else a certificate, else the error.
  unfoldable pub key_or_cert : Result (Option RsaKey) → Result Certificate → GoError → Result RsaKey
  key_or_cert (ok key) cert e = or_not_rsa (codes "平台公钥不是 RSA") key
  key_or_cert (err _) (ok cert) e = or_not_rsa (codes "证书公钥不是 RSA") (crypto.cert_key cert)
  key_or_cert (err _) (err _) e = err e

  unfoldable pub parse_der : Bytes → GoError → Result RsaKey
  unfolding key_or_cert
  parse_der der e = key_or_cert (crypto.parse_pkix der) (crypto.parse_certificate der) e

  -- No block of PEM: the text may be the base64 of the key.
  unfoldable pub parse_base64 : Result Bytes → Str → Result RsaKey
  unfolding starts_with_pem parse_der
  parse_base64 (err e) diag = err (new (codes "无法解析 PEM。diag=" ++ diag))
  parse_base64 (ok der) diag =
      if is_empty der
      then err (new (codes "无法解析 PEM。diag=" ++ diag))
      else if starts_with_pem (ok der)
      then err (
          new (
            codes
              "无法解析 PEM：输入看起来是【PEM 文件整体的 base64】；请先 base64 -d 得到原始 PEM 再注入（或在 CI 中解码后以文件方式挂载）。diag="
            ++ diag))
      else parse_der der (new (codes "无法解析 PEM。diag=" ++ diag))

  unfoldable pub parse_block : Option Bytes → Str → Str → Result RsaKey
  unfolding parse_base64 parse_der describe_wechat_platform_key_input compact
  parse_block none orig normalized =
      parse_base64 (crypto.base64 (compact normalized))
        (describe_wechat_platform_key_input orig normalized)
  parse_block (some block) orig normalized = parse_der block (new (codes "无法解析 RSA 公钥"))

  -- parseRSAPublicKeyFromPEM
  unfoldable pub parse_rsa_public_key_from_pem : Str → Result RsaKey
  unfolding parse_block normalize_pem
  parse_rsa_public_key_from_pem pem_text =
      let n = normalize_pem pem_text in parse_block (crypto.pem_block n) pem_text n

  abbrev or_bad_pem : Option Bytes → Result Bytes
  or_bad_pem none = err (new (codes "无法解析 PEM"))
  or_bad_pem (some block) = ok block

  unfoldable pub pkcs8_key : Result (Option PrivateKey) → Result PrivateKey
  pkcs8_key (err e) = err e
  pkcs8_key (ok key) = or_not_rsa (codes "私钥不是 RSA") key

  unfoldable pub private_key : Result PrivateKey → Result (Option PrivateKey) → Result PrivateKey
  unfolding pkcs8_key
  private_key (ok key) pkcs8 = ok key
  private_key (err _) pkcs8 = pkcs8_key pkcs8

  module _ (os : Machine) where
    -- loadRSAPrivateKeyFromPath
    unfoldable pub load_rsa_private_key_from_path : Str → Disk → Result PrivateKey
    unfolding private_key read_file
    load_rsa_private_key_from_path path d = do
      b ← read_file os path d
      block ← or_bad_pem (crypto.pem_block b)
      private_key (crypto.parse_pkcs1 block) (crypto.parse_pkcs8 block)

    -- loadX509CertFromPath
    unfoldable pub load_x509_cert_from_path : Str → Disk → Result Certificate
    unfolding read_file
    load_x509_cert_from_path path d = do
      b ← read_file os path d
      block ← or_bad_pem (crypto.pem_block b)
      crypto.parse_certificate block
