-- ===== src/OssStore/Settings/Usable.antt =====
-- The settings that the object store starts with.
use guangyang.Prelude.{◌≡◌, refl, subst, false, ◌&&◌, [], some, arith, Bool-cases, inl, inr}
use guangyang.Text.{Str, codes, ◌===◌}
use guangyang.Errors.{ok}
use guangyang.OssStore.Settings.{
  Settings, or_default, prefix_of, setting, internal, public, settings, from_env,
}

-- What the clients and the object keys are made of is there.
pub record Usable (s : Settings) : Type 0 where
  pub bucket : s.bucket === [] ≡ false
  pub region : s.region === [] ≡ false
  pub internal_endpoint : s.internal_endpoint === [] ≡ false
  pub public_endpoint : s.public_endpoint === [] ≡ false
  pub prefix : s.prefix === [] ≡ false
  pub input_prefix : s.input_prefix === [] ≡ false

or_default-there :
    (default s : Str) → (default === [] && s === []) ≡ false → or_default default s === [] ≡ false
unfolding or_default
or_default-there default s = elim (Bool-cases (s === [])) [
  | inl e ↦ rw e (λ h. ground arith)
  | inr e ↦ rw e (λ h. e)
]

prefix_of-there :
    (default raw : Str) → default === [] ≡ false → prefix_of default raw === [] ≡ false
unfolding prefix_of
prefix_of-there default raw h = or_default-there default _ (rw h refl)

module _ (env : Str → Str) where
  settings-Usable :
      setting env (codes "OSS_BUCKET") === [] ≡ false
      → (internal env === [] && public env === []) ≡ false
      → Usable (settings env)
  unfolding settings ◌===◌
  settings-Usable e e' = record {
    bucket = e;
    region = or_default-there (codes "cn-heyuan") (setting env (codes "OSS_REGION")) refl;
    internal_endpoint = or_default-there (public env) (internal env) (ground arith);
    public_endpoint = or_default-there (internal env) (public env) e';
    prefix = prefix_of-there (codes "compare-results") (env (codes "OSS_PREFIX")) refl;
    input_prefix = prefix_of-there (codes "compare-inputs") (env (codes "OSS_INPUT_PREFIX")) refl;
  }

  -- A store that NewFromEnv sets up has a bucket, a region, both endpoints and both prefixes, none of
  -- them empty.
  from_env-Usable : (s : Settings) → from_env env ≡ some (ok s) → Usable s
  unfolding from_env
  from_env-Usable s = elim (Bool-cases (setting env (codes "OSS_BUCKET") === [])) [
    | inl e ↦ rw e (λ h. absurd (cc))
    | inr e ↦ elim (Bool-cases (internal env === [] && public env === [])) [
      | inl e' ↦ rw (e, e') (λ h. absurd (cc))
      | inr e' ↦
          rw (e, e') (λ h. let eq : settings env ≡ s = cc in subst Usable eq (settings-Usable e e'))
    ]
  ]
