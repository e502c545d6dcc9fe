-- ===== src/Wechat/Verifier/Loaded.antt =====
-- What a verifier that was loaded has to verify with.
use guangyang.Prelude.{
  ◌≡◌, ◌≢◌, refl, true, ◌||◌, Option, none, some, [], arith, is_some, Bool-cases, inl, inr, ap,
  subst, sym, ◌∙◌,
}
use guangyang.Text.{Str, ◌===◌, trim_space, ===_sound, ===_iff}
use guangyang.Errors.{GoError, Result, ok, err}
use guangyang.Disk.{Disk, Machine, stat_file}
use guangyang.Wechat.Crypto.{Crypto}
use guangyang.Wechat.PlatformCert.{resolve_wechatpay_platform_cert_path}
use guangyang.Wechat.PlatformCert.Found.{resolve_wechatpay_platform_cert_path-IsFile}
use guangyang.Wechat.PlatformKey.{read_wechat_platform_public_key_pem}
use guangyang.Wechat.Pem.{parse_rsa_public_key_from_pem, load_x509_cert_from_path}
use guangyang.Wechat.Verifier.{
  PlatformVerifier, parsed_key, public_key_of, verifier_of, with_key, cert_at, load_from,
  load_wechatpay_verifier, ok_of,
}

module _ (crypto : Crypto) where
  open crypto use {RsaKey, Certificate}

  -- The key is that of the text, and there is none exactly if the text is empty.
  abbrev IsKeyOf : Str → Option RsaKey → Type 0
  IsKeyOf pem none = pem ≡ []
  IsKeyOf pem (some key) = (pem ≢ []) × (parse_rsa_public_key_from_pem crypto pem ≡ ok key)

  -- The certificate is that of the file that was found.
  abbrev IsCertAt : Machine → Result Str × Disk → Option Certificate → Type 0
  IsCertAt os found none = Unit {0}
  IsCertAt os (r, d) (some c) =
      (path : Str) × (r ≡ ok path)
      × (stat_file os path d ≡ true)
      × (load_x509_cert_from_path crypto os path d ≡ ok c)

  parsed_key-IsKeyOf :
      (pem : Str) (r : Result RsaKey) (o : Option RsaKey)
      → pem ≢ []
      → parse_rsa_public_key_from_pem crypto pem ≡ r
      → parsed_key crypto r ≡ ok o
      → IsKeyOf pem o
  unfolding parsed_key
  parsed_key-IsKeyOf pem (err e) o ne er h = absurd (cc)
  parsed_key-IsKeyOf pem (ok key) none ne er h = absurd (cc)
  parsed_key-IsKeyOf pem (ok key) (some k) ne er h = (ne, cc)

  public_key_of-IsKeyOf :
      (pem : Str) (o : Option RsaKey) → public_key_of crypto pem ≡ ok o → IsKeyOf pem o
  unfolding public_key_of
  public_key_of-IsKeyOf pem o h = elim (Bool-cases (pem === [])) [
    | inl empty ↦
        let e : ◌≡◌ {A = Result (Option RsaKey)} (ok none) (ok o) = rw empty at h in
        let q : none ≡ o = cc in subst (IsKeyOf pem) q (===_sound pem [] empty)
    | inr text ↦
        parsed_key-IsKeyOf pem (parse_rsa_public_key_from_pem crypto pem) o
          (λ z. absurd (ground (arith, ===_iff pem []))) refl (rw text at h)
  ]

  -- What a verifier is made of.
  abbrev MadeOf : PlatformVerifier crypto → Option Certificate → Option RsaKey → Type 0
  MadeOf v cert key =
      (v.platform_cert ≡ cert)
      × (v.platform_public_key ≡ key)
      × ((is_some cert || is_some key) ≡ true)

  verifier_of-MadeOf :
      (cert : Option Certificate) (id : Str) (key : Option RsaKey) (e : GoError)
      (v : PlatformVerifier crypto)
      → verifier_of crypto cert id key e ≡ ok v
      → MadeOf v cert key
  unfolding verifier_of
  verifier_of-MadeOf none id none e v h = absurd (cc)
  verifier_of-MadeOf none id (some k) e v h = (cc, cc, refl)
  verifier_of-MadeOf (some c) id key e v h = (cc, cc, refl)

  with_key-MadeOf :
      (cert : Option Certificate) (id : Str) (r : Result (Option RsaKey)) (e : GoError)
      (v : PlatformVerifier crypto)
      → with_key crypto cert id r e ≡ ok v
      → (key : Option RsaKey) × (r ≡ ok key) × MadeOf v cert key
  unfolding with_key
  with_key-MadeOf cert id (err f) e v h = absurd (cc)
  with_key-MadeOf cert id (ok key) e v h = (key, refl, verifier_of-MadeOf cert id key e v h)

  ok_of-inv : {A : Type 0} (r : Result A) (a : A) → ok_of crypto r ≡ some a → r ≡ ok a
  ok_of-inv (ok b) a h = cc
  ok_of-inv (err e) a h = absurd (cc)

  module _ (os : Machine) where
    cert_at-IsCertAt :
        (r : Result Str) (d : Disk) (o : Option Certificate)
        → ((path : Str) → r ≡ ok path → stat_file os path d ≡ true)
        → cert_at crypto os r d ≡ o
        → IsCertAt os (r, d) o
    unfolding cert_at
    cert_at-IsCertAt r d none there h = tt
    cert_at-IsCertAt (err e) d (some c) there h = absurd (cc)
    cert_at-IsCertAt (ok path) d (some c) there h =
        (path, refl, there path refl, ok_of-inv (load_x509_cert_from_path crypto os path d) c h)

    -- The text of the platform's public key.
    abbrev pem_text : Disk → Str
    pem_text d = trim_space (read_wechat_platform_public_key_pem os d)

    -- What is known of a verifier `v` that was loaded from the disk `d`, and left the disk `d'`.
    pub record IsLoaded (v : PlatformVerifier crypto) (d d' : Disk) : Type 0 where
      pub usable : (is_some v.platform_cert || is_some v.platform_public_key) ≡ true
      pub cert_read : IsCertAt os (resolve_wechatpay_platform_cert_path os d) v.platform_cert
      pub key_read : IsKeyOf (pem_text d') v.platform_public_key

    abbrev search : Disk → Result Str × Disk
    search d = resolve_wechatpay_platform_cert_path os d

    found_there :
        (d : Disk) (path : Str) → (search d).0 ≡ ok path → stat_file os path (search d).1 ≡ true
    found_there d path e =
        resolve_wechatpay_platform_cert_path-IsFile os d (search d).1 path
          (ap (λ (r : Result Str). (r, (search d).1)) e)

    load_from-IsLoaded :
        (v : PlatformVerifier crypto) (d : Disk)
        → load_from crypto os (search d).0 (search d).1 ≡ ok v
        → IsLoaded v d (search d).1
    unfolding load_from
    load_from-IsLoaded v d h =
        let d' = (search d).1 in
        let (key, e, made) = with_key-MadeOf (cert_at crypto os (search d).0 d') _ _ _ v h in
        record {
          usable = rw (made.0, made.1) made.2;
          cert_read = cert_at-IsCertAt (search d).0 d' v.platform_cert (found_there d) (sym made.0);
          key_read =
              public_key_of-IsKeyOf (pem_text d') v.platform_public_key
                (e ∙ ap (λ (o : Option RsaKey). ok o) (sym made.1));
        }

    -- A verifier that is loaded has a certificate or a public key. Its certificate is that of the file
    -- that the search found, which is there; its public key is what the configured text parses to, and
    -- it has none exactly if no text is configured.
    pub load_wechatpay_verifier-IsLoaded :
        (v : PlatformVerifier crypto) (d d' : Disk)
        → load_wechatpay_verifier crypto os d ≡ (ok v, d')
        → IsLoaded v d d'
    unfolding load_wechatpay_verifier
    load_wechatpay_verifier-IsLoaded v d d' h =
        subst (IsLoaded v d) (ap (λ (r : Result (PlatformVerifier crypto) × Disk). r.1) h)
          (load_from-IsLoaded v d (ap (λ (r : Result (PlatformVerifier crypto) × Disk). r.0) h))
