-- ===== src/Wechat/Crypto.antt =====
-- gobackend/wechat/crypto.go, and what the package calls of crypto/rsa, crypto/x509, crypto/aes,
-- encoding/pem and encoding/base64: a record of operations on types of its own.
use guangyang.Prelude.{ℕ, Option, List, ◌==◌, not, if◌then◌else◌}
use guangyang.Text.{Str, codes}
use guangyang.Errors.{GoError, new, Result, ok, err}
use guangyang.Excel.Fingerprint.{utf8, byte_length}

abbrev pub Bytes : Type 0
Bytes = List ℕ

pub record Crypto : Type 1 where
  pub RsaKey : Type 0  -- rsa.PublicKey
  pub PrivateKey : Type 0  -- rsa.PrivateKey
  pub Certificate : Type 0  -- x509.Certificate
  pub base64 : Str → Result Bytes  -- base64.StdEncoding.DecodeString
  pub text : Bytes → Str  -- string(b)
  pub pem_block : Str → Option Bytes  -- the bytes of the first block of pem.Decode
  pub parse_pkix : Bytes → Result (Option RsaKey)  -- `none` is a key that is no RSA key
  pub parse_pkcs1 : Bytes → Result PrivateKey
  pub parse_pkcs8 : Bytes → Result (Option PrivateKey)
  pub parse_certificate : Bytes → Result Certificate
  pub cert_key : Certificate → Option RsaKey
  pub serial : Certificate → Str  -- SerialNumber.Text(16)
  pub common_name : Certificate → Str
  pub organization : Certificate → Str  -- Subject.Organization, joined with commas
  pub sha256 : Str → Bytes
  pub hex : Bytes → Str
  pub verify_pkcs1v15 : RsaKey → Bytes → Bytes → Option GoError  -- key, digest and signature
  pub gcm_open : Bytes → Bytes → Bytes → Bytes → Result Bytes  -- key, nonce, text, associated data

-- m; if err != nil { return err }
infixl 5 ◌>>=◌
abbrev pub ◌>>=◌ {ℓ κ} : {A : Type ℓ} {B : Type κ} → Result A → (A → Result B) → Result B
ok a >>= f = f a
err e >>= f = err e

module _ (crypto : Crypto) where
  -- decryptWechatpayResource; aes.NewCipher and cipher.NewGCM give no error for a key of 32 bytes.
  unfoldable pub decrypt_wechatpay_resource : Str → Str → Str → Str → Result Bytes
  unfolding utf8 byte_length
  decrypt_wechatpay_resource api_v3_key associated_data nonce ciphertext =
      if not (byte_length api_v3_key == 32) then err (new (codes "APIv3Key 长度必须为 32 字节")) else (do
        ct ← crypto.base64 ciphertext
        crypto.gcm_open (utf8 api_v3_key) (utf8 nonce) ct (utf8 associated_data))
