-- ===== src/Wechat/Verifier/Accepts.antt =====
-- Which requests the verifier lets pass.
use guangyang.Prelude.{
  ◌++◌, ◌≡◌, ◌≢◌, ◌⊎◌, ◌↔◌, refl, Bool, true, false, not, ◌||◌, Option, none, some, [], arith,
  is_some, Bool-cases, inl, inr,
}
use guangyang.Text.{Str, codes, ◌===◌, ===_iff}
use guangyang.Errors.{Result, ok, err}
use guangyang.Wechat.Crypto.{Crypto, Bytes}
use guangyang.Wechat.Verifier.{
  PlatformVerifier, Header, signed_text, cert_key_of, key_verifies, verify_decoded, verify,
}

not_some : {A : Type 0} (o : Option A) → not (is_some o) ≡ true → o ≡ none
not_some none h = refl
not_some (some a) h = cc

-- The test for a field that is missing.
none_missing :
    (a b c d : Str)
    → (a === [] || b === [] || c === [] || d === []) ≡ false
    → (a ≢ []) × (b ≢ []) × (c ≢ []) × (d ≢ [])
none_missing a b c d h = (
  λ e. absurd (ground (arith, ===_iff a [])),
  λ e. absurd (ground (arith, ===_iff b [])),
  λ e. absurd (ground (arith, ===_iff c [])),
  λ e. absurd (ground (arith, ===_iff d [])),
)

none_missing-of :
    (a b c d : Str)
    → a ≢ []
    → b ≢ []
    → c ≢ []
    → d ≢ []
    → (a === [] || b === [] || c === [] || d === []) ≡ false
none_missing-of a b c d ha hb hc hd =
    ground (arith, ===_iff a [], ===_iff b [], ===_iff c [], ===_iff d [])

abbrev lacks_field : Header → Bool
lacks_field h =
    h (codes "Wechatpay-Timestamp") === []
    || h (codes "Wechatpay-Nonce") === []
    || h (codes "Wechatpay-Signature") === []
    || h (codes "Wechatpay-Serial") === []

module _ (crypto : Crypto) where
  open crypto use {RsaKey}

  -- The key is there, and the signature of the text is good under it.
  abbrev pub Signs : Option RsaKey → Str → Bytes → Type 0
  Signs o msg sig =
      (key : RsaKey) × (o ≡ some key) × (crypto.verify_pkcs1v15 key (crypto.sha256 msg) sig ≡ none)

  key_verifies-Signs :
      (o : Option RsaKey) (msg : Str) (sig : Bytes)
      → key_verifies crypto o msg sig ≡ true
      → Signs o msg sig
  unfolding key_verifies
  key_verifies-Signs none msg sig h = cc
  key_verifies-Signs (some key) msg sig h =
      (key, refl, not_some (crypto.verify_pkcs1v15 key (crypto.sha256 msg) sig) h)

  Signs-key_verifies :
      (o : Option RsaKey) (msg : Str) (sig : Bytes)
      → Signs o msg sig
      → key_verifies crypto o msg sig ≡ true
  unfolding key_verifies
  Signs-key_verifies o msg sig s = rw (s.1, s.2)

  abbrev pub SignedBy : PlatformVerifier crypto → Str → Bytes → Type 0
  SignedBy v msg sig =
      Signs (cert_key_of crypto v.platform_cert) msg sig ⊎ Signs v.platform_public_key msg sig

  verify_decoded-SignedBy :
      (v : PlatformVerifier crypto) (msg : Str) (r : Result Bytes)
      → verify_decoded crypto v msg r ≡ none
      → (sig : Bytes) × (r ≡ ok sig) × SignedBy v msg sig
  unfolding verify_decoded
  verify_decoded-SignedBy v msg (err e) h = cc
  verify_decoded-SignedBy v msg (ok sig) h =
      elim (Bool-cases (key_verifies crypto (cert_key_of crypto v.platform_cert) msg sig)) [
        | inl by_cert ↦ (sig, refl, inl (key_verifies-Signs _ msg sig by_cert))
        | inr not_cert ↦ elim (Bool-cases (key_verifies crypto v.platform_public_key msg sig)) [
          | inl by_key ↦ (sig, refl, inr (key_verifies-Signs _ msg sig by_key))
          | inr not_key ↦ absurd (ground arith)
        ]
      ]

  SignedBy-verify_decoded :
      (v : PlatformVerifier crypto) (msg : Str) (sig : Bytes)
      → SignedBy v msg sig
      → verify_decoded crypto v msg (ok sig) ≡ none
  unfolding verify_decoded
  SignedBy-verify_decoded v msg sig (inl s) = rw (Signs-key_verifies _ msg sig s)
  SignedBy-verify_decoded v msg sig (inr s) = ground (arith, Signs-key_verifies _ msg sig s)

  -- The four fields are there, the signature is base64, and one of the keys signs the time, the nonce
  -- and the body.
  pub record IsSigned (v : PlatformVerifier crypto) (h : Header) (body : Str) : Type 0 where
    pub has_timestamp : h (codes "Wechatpay-Timestamp") ≢ []
    pub has_nonce : h (codes "Wechatpay-Nonce") ≢ []
    pub has_signature : h (codes "Wechatpay-Signature") ≢ []
    pub has_serial : h (codes "Wechatpay-Serial") ≢ []
    pub signature : Bytes
    pub decoded : crypto.base64 (h (codes "Wechatpay-Signature")) ≡ ok signature
    pub signed :
        SignedBy v
          (h (codes "Wechatpay-Timestamp")
            ++ (codes "\n"
                ++ (h (codes "Wechatpay-Nonce") ++ (codes "\n" ++ (body ++ codes "\n")))))
          signature

  -- A request passes exactly if it has a time, a nonce, a signature and a serial number, the signature
  -- is base64, and the key of the platform's certificate or the platform's public key verifies it for
  -- the time, the nonce and the body; which serial number it names is not looked at.
  pub verify-IsSigned :
      (v : PlatformVerifier crypto) (h : Header) (body : Str)
      → (verify crypto v h body ≡ none) ↔ IsSigned v h body
  unfolding verify
  verify-IsSigned v h body = (
    λ e. elim (Bool-cases (lacks_field h)) [
      | inl missing ↦ absurd (ground arith)
      | inr present ↦
          let (ts, nonce, sig, serial) = none_missing _ _ _ _ present in
          let (signature, decoded, signed) =
            verify_decoded-SignedBy v
              (signed_text (h (codes "Wechatpay-Timestamp")) (h (codes "Wechatpay-Nonce")) body)
              (crypto.base64 (h (codes "Wechatpay-Signature"))) (rw present at e) in
          record {
            has_timestamp = ts;
            has_nonce = nonce;
            has_signature = sig;
            has_serial = serial;
            signature = signature;
            decoded = decoded;
            signed = signed;
          }
    ],
    λ s.
        rw
          (
            none_missing-of _ _ _ _ s.has_timestamp s.has_nonce s.has_signature s.has_serial,
            s.decoded,
          )
          (SignedBy-verify_decoded v _ s.signature s.signed),
  )
