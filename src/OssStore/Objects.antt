-- ===== src/OssStore/Objects.antt =====
-- The object operations of gobackend/ossstore/ossstore.go: what each asks of the bucket, and the
-- credentials that it wants for this. The package credentials and the bucket are the environment's.
pub mod Signed
use guangyang.Prelude.{Bool, true, ◌||◌, not, [], ◌∷◌, ◌++◌, Option, none, some, if◌then◌else◌}
use guangyang.Prelude.Int.{ℤ}
use guangyang.Text.{Str, codes, trim_space, is_blank, ◌===◌}
use guangyang.Errors.{GoError, new, wrap, Result, ok, err}
use guangyang.OssStore.Settings.{trim_left_slash}

-- What GetCredential returns: pointers that may be nil.
pub record Keys : Type 0 where
  pub access_key_id : Option Str
  pub access_key_secret : Option Str
  pub security_token : Option Str

-- A credential: nil, or what GetCredential gives, an error or a pointer that may be nil.
abbrev pub Credential : Type 0
Credential = Option (Result (Option Keys))

abbrev blank_key : Option Str → Bool
blank_key none = true
blank_key (some s) = is_blank s

no_credential : GoError
no_credential = new (codes "阿里云凭证未初始化（RRSA/AK/STS 都不可用）")

empty_credential : GoError
empty_credential = new (
    codes
      "阿里云凭证为空：很可能 RRSA 未注入。请检查 Pod 内是否存在 ALIBABA_CLOUD_ROLE_ARN / ALIBABA_CLOUD_OIDC_PROVIDER_ARN / ALIBABA_CLOUD_OIDC_TOKEN_FILE")

unfoldable pub validate_keys : Result (Option Keys) → Option GoError
unfolding empty_credential
validate_keys (err e) = some (wrap (codes "获取阿里云临时凭证失败（检查 RRSA 注入/STS 连通性/NAT）：") e)
validate_keys (ok none) = some empty_credential
validate_keys (ok (some k)) =
    if blank_key k.access_key_id || blank_key k.access_key_secret
    then some empty_credential
    else none

-- validateAlibabaCredential, and ensureCred
unfoldable pub validate_credential : Credential → Option GoError
unfolding validate_keys no_credential
validate_credential none = some no_credential
validate_credential (some c) = validate_keys c

-- deref
unfoldable pub deref : Option Str → Str
deref none = []
deref (some s) = s

-- ossCred
pub record OssCred : Type 0 where
  pub access_key_id : Str
  pub access_key_secret : Str
  pub security_token : Str

abbrev pub no_keys : OssCred
no_keys = record { access_key_id = []; access_key_secret = []; security_token = [] }

unfoldable pub keys_of : Option Str → Option Str → Option Str → OssCred
unfolding deref
keys_of (some id) (some secret) token = record {
  access_key_id = id;
  access_key_secret = secret;
  security_token = deref token;
}
keys_of none secret token = no_keys
keys_of (some id) none token = no_keys

-- credentialsProvider.GetCredentials
unfoldable pub get_credentials : Result (Option Keys) → OssCred
unfolding keys_of
get_credentials (err e) = no_keys
get_credentials (ok none) = no_keys
get_credentials (ok (some k)) = keys_of k.access_key_id k.access_key_secret k.security_token

-- A call of the bucket.
pub data Request : Type 0 where
  put_object : Str → Str → Option Str → Request  -- key, file and type
  get_object : Str → Request
  sign_url : Str → ℤ → Str → Request  -- key, expiry and disposition

-- An operation of the store, with its arguments.
pub data Op : Type 0 where
  put_file_from_path : Str → Str → Str → Op
  get_object_to_file : Str → Str → Op
  put_result_file : Str → Str → Op
  read_object : Str → Op
  sign_download_url : Str → Str → Op

-- strings.TrimLeft(strings.TrimSpace(objectKey), "/")
unfoldable pub object_key : Str → Str
unfolding trim_left_slash
object_key key = trim_left_slash (trim_space key)

-- The check of a key and a file.
unfoldable pub with_file : Str → Str → Request → Result Request
unfolding object_key
with_file key path r =
    if object_key key === [] || is_blank path
    then err (new (codes "invalid objectKey/localPath"))
    else ok r

unfoldable pub with_key : Str → Request → Result Request
unfolding object_key
with_key key r = if object_key key === [] then err (new (codes "objectKey empty")) else ok r

-- A call of the bucket, with the credentials that it is signed with.
pub record Call : Type 0 where
  pub credentials : OssCred
  pub request : Request

abbrev with_keys : Result (Option Keys) → Result Request → Result Call
with_keys later (err e) = err e
with_keys later (ok r) = ok (record { credentials = get_credentials later; request = r })

-- `escape` is url.PathEscape.
module _ (escape : Str → Str) (sign_expiry : ℤ) where
  unfoldable pub disposition : Str → Str
  disposition name =
      codes "attachment; filename=\"compare.xlsx\"; filename*=UTF-8''"
      ++ escape (if is_blank name then codes "比对结果.xlsx" else trim_space name)

  -- What each method asks of the bucket after its first two checks.
  unfoldable pub request_of : Op → Result Request
  unfolding with_file with_key disposition
  request_of (put_file_from_path key path content_type) = with_file key path (
      put_object (object_key key) (trim_space path)
        (if is_blank content_type then none else some (trim_space content_type)))
  request_of (get_object_to_file key path) = with_file key path (get_object (object_key key))
  request_of (put_result_file key path) = with_file key path (
      put_object (object_key key) (trim_space path)
        (some (codes "application/vnd.openxmlformats-officedocument.spreadsheetml.sheet")))
  request_of (read_object key) = with_key key (get_object (object_key key))
  request_of (sign_download_url key name) =
      with_key key (sign_url (object_key key) sign_expiry (disposition name))

  abbrev after_check : Option GoError → Result Request → Result Request
  after_check (some e) r = err e
  after_check none r = r

  -- PutFileFromPath, GetObjectToFile, PutResultFile, GetObject and SignDownloadURL up to their call of
  -- the bucket.
  unfoldable pub ask : Bool → Credential → Op → Result Request
  unfolding validate_credential request_of
  ask enabled credential op =
      if not enabled
      then err (new (codes "oss not enabled"))
      else after_check (validate_credential credential) (request_of op)

  -- The same with the call, for which the client's provider asks for the credential a second time;
  -- `later` is the answer to that.
  unfoldable pub call : Bool → Credential → Result (Option Keys) → Op → Result Call
  unfolding ask
  call enabled credential later op = with_keys later (ask enabled credential op)

abbrev or_then : Option GoError → Option GoError → Option GoError
or_then (some e) next = some e
or_then none next = next

-- GetObjectToFile after the request: the errors of GetObject, MkdirAll, Create and Copy.
unfoldable pub fetched : (get mkdir create copy : Option GoError) → Option GoError
fetched get mkdir create copy = or_then get (or_then mkdir (or_then create copy))
