-- ===== src/Tests/Objects.antt =====
-- The theorems on the object store, applied to one environment.
use guangyang.Prelude.{◌≡◌, refl, true, [], none, some, if◌then◌else◌}
use guangyang.Prelude.Int.{pos}
use guangyang.Text.{Str, codes, trim_space, is_blank, ◌===◌}
use guangyang.Errors.{ok, err, new}
use guangyang.Config.{wrap_int64}
use guangyang.OssStore.Settings.{Settings, trim_left_slash}
use guangyang.OssStore.Objects.{
  Credential, Request, sign_url, sign_download_url, ask, request_of, object_key, with_key, Call,
  no_keys, call, get_credentials, disposition, validate_credential, validate_keys,
}
use guangyang.OssStore.Objects.Signed.{IsChecked, Carries, IsKey, key_of, call-Carries}

-- Only the bucket and the internal endpoint are set.
abbrev env : Str → Str
env name =
    if name === codes "OSS_BUCKET"
    then codes "gy"
    else if name === codes "OSS_ENDPOINT_INTERNAL"
    then codes "oss-internal.example"
    else []

abbrev set_up : Settings
set_up = record {
  bucket = codes "gy";
  region = codes "cn-heyuan";
  internal_endpoint = codes "oss-internal.example";
  public_endpoint = codes "oss-internal.example";
  prefix = codes "compare-results";
  input_prefix = codes "compare-inputs";
  sign_expiry = pos 600_000_000_000;
}

abbrev credential : Credential
credential = some (
    ok (
      some (record {
        access_key_id = some (codes "id");
        access_key_secret = some (codes "secret");
        security_token = none;
      })))

abbrev request : Request
request =
    sign_url (codes "a/b.xlsx") (pos 600_000_000_000)
      (codes "attachment; filename=\"compare.xlsx\"; filename*=UTF-8''r.xlsx")

-- The second call of GetCredential fails: the link is made without keys.
abbrev unsigned : Call
unsigned = record { credentials = no_keys; request = request }

call-Carries_example :
    (true ≡ true)
    × IsChecked credential
    × IsKey (key_of request)
    × Carries (err (new (codes "timeout"))) no_keys
unfolding call ask request_of object_key trim_left_slash with_key disposition validate_credential
    validate_keys trim_space is_blank ◌===◌ wrap_int64 get_credentials
call-Carries_example =
    call-Carries (λ s. s) (pos 600_000_000_000) true credential (err (new (codes "timeout")))
      (sign_download_url (codes " /a/b.xlsx") (codes "r.xlsx")) unsigned refl
