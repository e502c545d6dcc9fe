-- ===== src/OssStore/Objects/Signed.antt =====
-- What holds of a request that reaches the bucket.
use guangyang.Prelude.{
  ◌≡◌, refl, sym, subst, Bool, true, false, ◌||◌, [], ◌∷◌, Option, none, some, arith, ◌==◌,
  Bool-cases, inl, inr, if◌then◌else◌,
}
use guangyang.Prelude.Int.{ℤ}
use guangyang.Text.{Str, trim_space, is_blank, ◌===◌}
use guangyang.Text.Path.{slash}
use guangyang.Errors.{GoError, Result, ok, err}
use guangyang.OssStore.Settings.{trim_left_slash}
use guangyang.OssStore.Objects.{
  Keys, Credential, blank_key, empty_credential, after_check, validate_keys, validate_credential,
  keys_of, get_credentials, Request, put_object, get_object, sign_url, Op, put_file_from_path,
  get_object_to_file, put_result_file, read_object, sign_download_url, object_key, with_file,
  with_key, request_of, ask, deref, OssCred, no_keys, Call, with_keys, call,
}

abbrev pub key_of : Request → Str
key_of (put_object key path content_type) = key
key_of (get_object key) = key
key_of (sign_url key expiry disposition) = key

-- A key that a bucket takes: it is there and does not start with a slash.
abbrev pub IsKey : Str → Type 0
IsKey [] = ⊥
IsKey (c ∷ s) = (c == slash) ≡ false

-- An answer of GetCredential with this identifier and this secret.
pub record Gives (c : Result (Option Keys)) (id secret token : Str) : Type 0 where
  pub keys : Keys
  pub answer : c ≡ ok (some keys)
  pub key_id : keys.access_key_id ≡ some id
  pub key_secret : keys.access_key_secret ≡ some secret
  pub session : deref keys.security_token ≡ token

-- The credential that was checked has an identifier and a secret that are not blank.
pub record IsChecked (c : Credential) : Type 0 where
  pub answered : Result (Option Keys)
  pub id : Str
  pub secret : Str
  pub token : Str
  pub there : c ≡ some answered
  pub gives : Gives answered id secret token
  pub good_id : is_blank id ≡ false
  pub good_secret : is_blank secret ≡ false

-- What a call is signed with: the keys of the provider's answer, or none if it has not both.
pub data Carries (later : Result (Option Keys)) (cred : OssCred) : Type 0 where
  signed :
      Gives later cred.access_key_id cred.access_key_secret cred.security_token → Carries later cred
  anonymous :
      ((id secret token : Str) → Gives later id secret token → ⊥)
      → cred ≡ no_keys
      → Carries later cred

trim_left_slash-IsKey : (s : Str) → trim_left_slash s === [] ≡ false → IsKey (trim_left_slash s)
unfolding trim_left_slash ◌===◌
trim_left_slash-IsKey [] = λ h. absurd (cc)
trim_left_slash-IsKey (c ∷ s) = elim (Bool-cases (c == slash)) [
  | inl e ↦ rw e (trim_left_slash-IsKey s)
  | inr e ↦ rw e (λ h. e)
]

object_key-IsKey :
    (key : Str) (q : Request)
    → key_of q ≡ object_key key
    → object_key key === [] ≡ false
    → IsKey (key_of q)
unfolding object_key
object_key-IsKey key q same h = subst IsKey (sym same) (trim_left_slash-IsKey (trim_space key) h)

with_file-IsKey :
    (key path : Str) (q r : Request)
    → key_of q ≡ object_key key
    → with_file key path q ≡ ok r
    → IsKey (key_of r)
unfolding with_file
with_file-IsKey key path q r same = elim (Bool-cases (object_key key === [] || is_blank path)) [
  | inl e ↦ rw e (λ h. absurd (cc))
  | inr e ↦
      rw e (λ h. let eq : q ≡ r = cc in rw (← eq) (object_key-IsKey key q same (ground arith)))
]

with_key-IsKey :
    (key : Str) (q r : Request)
    → key_of q ≡ object_key key
    → with_key key q ≡ ok r
    → IsKey (key_of r)
unfolding with_key
with_key-IsKey key q r same = elim (Bool-cases (object_key key === [])) [
  | inl e ↦ rw e (λ h. absurd (cc))
  | inr e ↦ rw e (λ h. let eq : q ≡ r = cc in rw (← eq) (object_key-IsKey key q same e))
]

validate_keys-IsChecked : (c : Result (Option Keys)) → validate_keys c ≡ none → IsChecked (some c)
unfolding validate_keys
validate_keys-IsChecked (err e) = λ h. absurd (cc)
validate_keys-IsChecked (ok none) = λ h. absurd (cc)
validate_keys-IsChecked (ok (some k)) = both k.access_key_id k.access_key_secret refl refl
  where
    both :
        (id secret : Option Str)
        → k.access_key_id ≡ id
        → k.access_key_secret ≡ secret
        → (if blank_key id || blank_key secret then some empty_credential else none) ≡ none
        → IsChecked (some (ok (some k)))
    both none secret e e' = λ h. absurd (cc)
    both (some id) none e e' = elim (Bool-cases (is_blank id)) [
      | inl b ↦ rw b (λ h. absurd (cc))
      | inr b ↦ rw b (λ h. absurd (cc))
    ]
    both (some id) (some secret) e e' = elim (Bool-cases (is_blank id)) [
      | inl b ↦ rw b (λ h. absurd (cc))
      | inr b ↦ elim (Bool-cases (is_blank secret)) [
        | inl b' ↦ rw (b, b') (λ h. absurd (cc))
        | inr b' ↦ λ h. record {
          answered = ok (some k);
          id = id;
          secret = secret;
          token = deref k.security_token;
          there = refl;
          gives = record { keys = k; answer = refl; key_id = e; key_secret = e'; session = refl };
          good_id = b;
          good_secret = b';
        }
      ]
    ]

validate_credential-IsChecked : (c : Credential) → validate_credential c ≡ none → IsChecked c
unfolding validate_credential
validate_credential-IsChecked none h = absurd (cc)
validate_credential-IsChecked (some c) h = validate_keys-IsChecked c h

get_credentials-Carries : (later : Result (Option Keys)) → Carries later (get_credentials later)
unfolding get_credentials keys_of
get_credentials-Carries (err e) =
    anonymous (λ id secret token g. let answer = g.answer in absurd (cc)) refl
get_credentials-Carries (ok none) =
    anonymous (λ id secret token g. let answer = g.answer in absurd (cc)) refl
get_credentials-Carries (ok (some k)) = both k.access_key_id k.access_key_secret refl refl
  where
    lacks :
        ((i s : Str) → k.access_key_id ≡ some i → k.access_key_secret ≡ some s → ⊥)
        → (id secret token : Str) → Gives (ok (some k)) id secret token
        → ⊥
    lacks gap id secret token g =
        let answer = g.answer in
        let same : g.keys ≡ k = cc in
        gap id secret (subst (λ x. x.access_key_id ≡ some id) same g.key_id)
          (subst (λ x. x.access_key_secret ≡ some secret) same g.key_secret)

    both :
        (id secret : Option Str)
        → k.access_key_id ≡ id
        → k.access_key_secret ≡ secret
        → Carries (ok (some k)) (keys_of id secret k.security_token)
    both none secret e e' = anonymous (lacks (λ i s h h'. absurd (cc))) refl
    both (some id) none e e' = anonymous (lacks (λ i s h h'. absurd (cc))) refl
    both (some id) (some secret) e e' =
        signed (record { keys = k; answer = refl; key_id = e; key_secret = e'; session = refl })

module _ (escape : Str → Str) (sign_expiry : ℤ) where
  request_of-IsKey :
      (op : Op) (r : Request) → request_of escape sign_expiry op ≡ ok r → IsKey (key_of r)
  unfolding request_of
  request_of-IsKey (put_file_from_path key path t) r h = with_file-IsKey key path _ r refl h
  request_of-IsKey (get_object_to_file key path) r h = with_file-IsKey key path _ r refl h
  request_of-IsKey (put_result_file key path) r h = with_file-IsKey key path _ r refl h
  request_of-IsKey (read_object key) r h = with_key-IsKey key _ r refl h
  request_of-IsKey (sign_download_url key name) r h = with_key-IsKey key _ r refl h

  -- A call of the bucket by one of the five object methods, whose provider asks for the credential a
  -- second time: the store is enabled, the credential that was checked first has an identifier and a
  -- secret that are not blank, the object key is not empty and does not start with a slash, and the
  -- call is signed with the keys of the second answer, or, exactly if that has not both, with none.
  pub call-Carries :
      (enabled : Bool) (credential : Credential) (later : Result (Option Keys)) (op : Op) (c : Call)
      → call escape sign_expiry enabled credential later op ≡ ok c
      → (enabled ≡ true)
        × IsChecked credential
        × IsKey (key_of c.request)
        × Carries later c.credentials
  unfolding call ask
  call-Carries false credential later op c h = absurd (cc)
  call-Carries true credential later op c h =
      checked (validate_credential credential) (request_of escape sign_expiry op) refl refl h
    where
      checked :
          (e : Option GoError) (q : Result Request)
          → validate_credential credential ≡ e
          → request_of escape sign_expiry op ≡ q
          → with_keys later (after_check escape sign_expiry e q) ≡ ok c
          → (true ≡ true)
            × IsChecked credential
            × IsKey (key_of c.request)
            × Carries later c.credentials
      checked (some e) q v w h = absurd (cc)
      checked none (err e) v w h = absurd (cc)
      checked none (ok r) v w h =
          let made : ◌≡◌ {A = Call} (record { credentials = get_credentials later; request = r })
              c =
            cc in
          (
            refl,
            validate_credential-IsChecked credential v,
            subst (λ x. IsKey (key_of x.request)) made (request_of-IsKey op r w),
            subst (λ x. Carries later x.credentials) made (get_credentials-Carries later),
          )
