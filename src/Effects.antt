-- ===== src/Effects.antt =====
-- What the handlers and the workers do to the outside: a program is a tree of its effects. Each
-- access of the job store is atomic; what other replicas do may come between two of them.
use guangyang.Prelude.{ℕ, Bool, Option, List}
use guangyang.Prelude.Int.{ℤ}
use guangyang.Text.{Str}
use guangyang.Errors.{GoError, Result}
use guangyang.Domain.{CompareJob, Time}

-- The two Redis streams.
pub data Queue : Type 0 where
  compare_queue pay_queue : Queue

-- Calls of services, of the operating system and of other packages.
pub data Call : Type 0 where
  now : Call  -- time.Now
  getenv : Str → Call  -- os.Getenv
  new_token : Call  -- redislock.Token
  acquire : Str → Str → Call  -- Client.Acquire, key and token
  release : Str → Str → Call  -- Client.Release
  enqueue : Queue → Str → Call  -- CompareQueue.Enqueue
  mkdir_all : Str → Call
  remove : Str → Call
  remove_all : Str → Call
  stat : Str → Call
  oss_get_file : Str → Str → Call  -- Store.GetObjectToFile, key and path
  oss_put_result : Str → Str → Call  -- Store.PutResultFile, key and path
  oss_put_file : Str → Str → Str → Call  -- Store.PutFileFromPath, key, path and type
  oss_sign : Str → Str → Call  -- Store.SignDownloadURL, key and file name
  convert_xls : Str → Call  -- convertXLSIfNeeded
  export_xlsx : Str → Str → Str → Str → Str → Call  -- GenerateCompareExportXLSX
  random : ℕ → Call  -- crypto/rand.Read; `none` is an error
  multipart : ℕ → Call  -- the parts of the body, read up to a limit of bytes
  save_upload : Str → Str → Call  -- saveUploadTo: directory and name, for the part at hand
  quote : Str → Call  -- the verb %q of fmt
  mch_id : Call  -- readWechatMchID
  pay_app_id : Call  -- readWechatPayAppID
  notify_url : Call  -- readWechatNotifyURL
  api_v3_key : Call  -- readWechatAPIV3Key
  cert_paths : Call  -- resolveWechatpayCertPaths: merchant key and certificate
  load_key : Str → Call  -- loadRSAPrivateKeyFromPath
  load_cert : Str → Call  -- loadX509CertFromPath, and the serial number in upper-case hexadecimal
  load_verifier : Call  -- loadWechatpayVerifier
  sign_request : Str → Str → Call  -- wechatpaySignRequest with a fresh nonce: path and body
  prepay_body : Str → Str → Str → Str → ℕ → Call  -- json.Marshal of the prepay request
  close_body : Str → Call  -- json.Marshal of the close request
  path_escape : Str → Call  -- url.PathEscape
  http_post : Str → Str → Call  -- the signed POST: path and body
  json_code_url : Str → Call  -- json.Unmarshal, field code_url
  read_body : Call  -- io.ReadAll of a request
  verify_signature : Str → Call  -- wechatpayVerifier.Verify over the request's headers and body
  open_resource : Str → Str → Call  -- the envelope's resource, decrypted with the key
  json_envelope : Str → Call  -- json.Unmarshal of the envelope
  json_transaction : Str → Call  -- json.Unmarshal of the transaction

-- The parts of a multipart body, by FormName and FileName, and how the stream ends.
pub data Parts : Type 0 where
  eof : Parts
  broken : Parts
  part : Str → Str → Parts → Parts

-- What the client of net/http gives back: an error, or the status, the body up to 4096 bytes and the
-- status line.
pub data HttpReply : Type 0 where
  transport_error : GoError → HttpReply
  response : ℕ → Str → Str → HttpReply

-- wechatpayTransaction; `total` is an int64.
pub record Transaction : Type 0 where
  pub out_trade_no : Str
  pub trade_state : Str
  pub total : ℤ

-- What a call returns; `Option GoError` is an error that may be nil.
abbrev pub Reply : Call → Type 0
Reply now = Time
Reply (getenv _) = Str
Reply new_token = Result Str
Reply (acquire _ _) = Result Bool
Reply (release _ _) = Unit
Reply (enqueue _ _) = Option GoError
Reply (mkdir_all _) = Option GoError
Reply (remove _) = Unit
Reply (remove_all _) = Unit
Reply (stat _) = Option GoError
Reply (oss_get_file _ _) = Option GoError
Reply (oss_put_result _ _) = Option GoError
Reply (oss_put_file _ _ _) = Option GoError
Reply (oss_sign _ _) = Result Str
Reply (convert_xls _) = Result Str
Reply (export_xlsx _ _ _ _ _) = Option GoError
Reply (random _) = Option (List ℕ)
Reply (multipart _) = Result Parts
Reply (save_upload _ _) = Result Str
Reply (quote _) = Str
Reply mch_id = Str
Reply pay_app_id = Str
Reply notify_url = Str
Reply api_v3_key = Result Str
Reply cert_paths = Result (Str × Str)
Reply (load_key _) = Option GoError
Reply (load_cert _) = Result Str
Reply load_verifier = Option GoError
Reply (sign_request _ _) = Option GoError
Reply (prepay_body _ _ _ _ _) = Str
Reply (close_body _) = Str
Reply (path_escape _) = Str
Reply (http_post _ _) = HttpReply
Reply (json_code_url _) = Result Str
Reply read_body = Result Str
Reply (verify_signature _) = Option GoError
Reply (open_resource _ _) = Result Str
Reply (json_envelope _) = Result Str
Reply (json_transaction _) = Result Transaction

-- The results (nil, false, err), (nil, false, nil) and (job, true, nil) of `Get`.
pub data GetReply : Type 0 where
  get_failed : GoError → GetReply
  not_found : GetReply
  found : CompareJob → GetReply

-- Every caller of `Update` and of `Create` drops its result, so the program goes on the same way.
pub data Prog (A : Type 0) : Type 0 where
  ret : A → Prog A
  call : (c : Call) → (Reply c → Prog A) → Prog A
  get_job : Str → (GetReply → Prog A) → Prog A
  update_job : Str → (CompareJob → CompareJob) → Prog A → Prog A
  create_job : CompareJob → Prog A → Prog A

infixl 5 ◌>>=◌ ◌>>◌
unfoldable pub ◌>>=◌ : {A B : Type 0} → Prog A → (A → Prog B) → Prog B
ret a >>= f = f a
call c k >>= f = call c (λ r. k r >>= f)
get_job id k >>= f = get_job id (λ r. k r >>= f)
update_job id g p >>= f = update_job id g (p >>= f)
create_job j p >>= f = create_job j (p >>= f)

abbrev pub ◌>>◌ : {A B : Type 0} → Prog A → Prog B → Prog B
p >> q = p >>= λ _. q

-- The effects as actions of a do block.
abbrev pub perform : (c : Call) → Prog (Reply c)
perform c = call c ret

abbrev pub get : Str → Prog GetReply
get id = get_job id ret

abbrev pub update : Str → (CompareJob → CompareJob) → Prog Unit
update id f = update_job id f (ret tt)

abbrev pub create : CompareJob → Prog Unit
create j = create_job j (ret tt)
