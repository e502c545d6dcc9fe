-- ===== src/OssStore/Settings.antt =====
-- What NewFromEnv of gobackend/ossstore/ossstore.go reads before it makes the clients, with
-- readEnvInt64Default and the STS endpoint of newAlibabaCredential. `env` is os.Getenv.
pub mod Usable
use guangyang.Prelude.{
  suc, ◌*◌, Bool, ◌&&◌, not, [], ◌∷◌, ◌++◌, Option, none, some, ◌==◌, if◌then◌else◌,
}
use guangyang.Prelude.Int.{ℤ, pos, negsuc}
use guangyang.Text.{Str, codes, trim_space, is_blank, ◌===◌}
use guangyang.Text.Decimal.{parse_int}
use guangyang.Text.Path.{slash}
use guangyang.Config.{second, wrap_int64}
use guangyang.Errors.{GoError, new, Result, ok, err}

-- strings.TrimLeft(s, "/")
unfoldable pub trim_left_slash : Str → Str
trim_left_slash [] = []
trim_left_slash (c ∷ s) = if c == slash then trim_left_slash s else c ∷ s

-- strings.TrimRight(s, "/")
unfoldable pub trim_right_slash : Str → Str
trim_right_slash [] = []
trim_right_slash (c ∷ s) =
    let rest = trim_right_slash s in if c == slash && rest === [] then [] else c ∷ rest

unfoldable pub or_default : Str → Str → Str
or_default default s = if s === [] then default else s

-- OSS_PREFIX and OSS_INPUT_PREFIX.
unfoldable pub prefix_of : Str → Str → Str
unfolding trim_left_slash trim_right_slash or_default
prefix_of default raw = or_default default (trim_right_slash (trim_left_slash (trim_space raw)))

abbrev int_or : ℤ → Option ℤ → ℤ
int_or default none = default
int_or default (some n) = n

-- readEnvInt64Default
unfoldable pub read_env_int64_default : Str → ℤ → ℤ
read_env_int64_default raw default =
    if is_blank raw then default else int_or default (parse_int (trim_space raw))

-- The seconds that a signed address is valid, as a time.Duration.
unfoldable pub expiry_of : ℤ → ℤ
expiry_of (pos (suc n)) = wrap_int64 (suc n * second)
expiry_of _ = pos (600 * second)

pub record Settings : Type 0 where
  pub bucket : Str
  pub region : Str
  pub internal_endpoint : Str
  pub public_endpoint : Str
  pub prefix : Str
  pub input_prefix : Str
  pub sign_expiry : ℤ

module _ (env : Str → Str) where
  abbrev setting : Str → Str
  setting name = trim_space (env name)

  abbrev internal : Str
  internal = setting (codes "OSS_ENDPOINT_INTERNAL")

  abbrev public : Str
  public = setting (codes "OSS_ENDPOINT_PUBLIC")

  -- The values that NewFromEnv puts into the store.
  unfoldable pub settings : Settings
  unfolding or_default prefix_of read_env_int64_default expiry_of
  settings = record {
    bucket = setting (codes "OSS_BUCKET");
    region = or_default (codes "cn-heyuan") (setting (codes "OSS_REGION"));
    internal_endpoint = or_default public internal;
    public_endpoint = or_default internal public;
    prefix = prefix_of (codes "compare-results") (env (codes "OSS_PREFIX"));
    input_prefix = prefix_of (codes "compare-inputs") (env (codes "OSS_INPUT_PREFIX"));
    sign_expiry =
        expiry_of (read_env_int64_default (env (codes "OSS_SIGN_EXPIRE_SECONDS")) (pos 600));
  }

  -- NewFromEnv up to the credentials; `none` is a store that is not asked for.
  unfoldable pub from_env : Option (Result Settings)
  unfolding settings
  from_env =
      if setting (codes "OSS_BUCKET") === []
      then none
      else if internal === [] && public === []
      then some (err (new (codes "已设置 OSS_BUCKET，但缺少 OSS_ENDPOINT_INTERNAL/OSS_ENDPOINT_PUBLIC")))
      else some (ok settings)

  -- The STS endpoint of newAlibabaCredential, where the role, its provider and the token file are set.
  unfoldable pub sts_endpoint : Str → Option Str
  unfolding or_default
  sts_endpoint region =
      if not (setting (codes "ALIBABA_CLOUD_ROLE_ARN") === [])
        && not (setting (codes "ALIBABA_CLOUD_OIDC_PROVIDER_ARN") === [])
        && not (setting (codes "ALIBABA_CLOUD_OIDC_TOKEN_FILE") === [])
      then some (
          or_default
            (if is_blank region
              then codes "sts.aliyuncs.com"
              else codes "sts." ++ trim_space region ++ codes ".aliyuncs.com")
            (setting (codes "ALIBABA_CLOUD_STS_ENDPOINT")))
      else none
