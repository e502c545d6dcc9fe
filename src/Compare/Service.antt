-- ===== src/Compare/Service.antt =====
-- gobackend/compare/service.go: the HTTP handlers of a job that is there.
pub mod Create
pub mod Task
use guangyang.Prelude.{
  ℕ, Bool, true, false, ◌||◌, ◌&&◌, not, List, [], ◌∷◌, ◌++◌, Option, none, some, is_some,
  if◌then◌else◌,
}
use guangyang.Text.{Str, codes, trim_space, ◌===◌, to_upper, to_lower, contains}
use guangyang.Text.Path.{trim_prefix, trim_slashes, split, slash}
use guangyang.Domain.{
  CompareJob, CompareJobStatus, processing, awaiting_payment, ready, failed, cancelled, Time,
  is_cancelled, is_ready, is_awaiting, is_failed, has_result,
}
use guangyang.Errors.{GoError, message, Result, ok, err}
use guangyang.OssStore
use guangyang.OssStore.{is_enabled}
use guangyang.Http.{
  Method, options, get, post, Response, no_content, http_error, missing, json, redirect, serve_file,
  Value, text, flag, time, amount,
}
use guangyang.Wechat.Native.{close_native_order}
use guangyang.Effects.{
  Prog, ret, ◌>>=◌, ◌>>◌, perform, update, GetReply, get_failed, not_found, found, now, stat,
  oss_sign,
}
use guangyang.Effects

-- string(status)
unfoldable pub status_text : CompareJobStatus → Str
status_text processing = codes "processing"
status_text awaiting_payment = codes "awaiting_payment"
status_text ready = codes "ready"
status_text failed = codes "failed"
status_text cancelled = codes "cancelled"

-- The status that a client is shown.
unfoldable pub shown_status : CompareJob → CompareJobStatus
shown_status job =
    if is_awaiting job.status && job.paid && has_result job then ready else job.status

abbrev date_field : Str → Option Time → List (Str × Value)
date_field name none = []
date_field name (some t) = (name, time t) ∷ []

-- The safe subset of a job that handleGetJob returns.
unfoldable pub job_fields : CompareJob → List (Str × Value)
unfolding shown_status status_text
job_fields job =
    let status = shown_status job in
    (codes "jobId", text job.id)
    ∷ (codes "status", text (status_text status))
    ∷ (codes "createdAt", time job.created_at)
    ∷ (codes "paid", flag job.paid)
    ∷ ((if is_awaiting status
          then (codes "amount", amount job.amount_yuan) ∷ (codes "code_url", text job.code_url) ∷ []
          else [])
        ++ ((if is_failed job.status && not (job.error === [])
              then (codes "error", text job.error) ∷ []
              else [])
            ++ (date_field (codes "cancelledAt") job.cancelled_at
                ++ date_field (codes "paidAt") job.paid_at)))

unfoldable pub get_answer : GetReply → Response
unfolding job_fields
get_answer (get_failed e) = http_error 500 (codes "server error")
get_answer not_found = missing
get_answer (found job) = json 200 (job_fields job)

-- Service.handleGetJob
unfoldable pub handle_get_job : Str → Prog Response
unfolding get_answer
handle_get_job job_id = do r ← Effects.get job_id; ret (get_answer r)

-- The closure of handleCancelJob.
unfoldable pub cancel_job : Time → CompareJob → CompareJob
cancel_job t j = if j.paid then j else record j { status = cancelled; cancelled_at = some t }

unfoldable pub cancelled_answer : Str → Response
cancelled_answer job_id = json 200 (
    (codes "jobId", text job_id)
    ∷ (codes "status", text (codes "cancelled"))
    ∷ (codes "cancelled", flag true)
    ∷ [])

unfoldable pub do_cancel : Str → Prog Response
unfolding cancelled_answer
do_cancel job_id = do t ← perform now; update job_id (cancel_job t); ret (cancelled_answer job_id)

unfoldable pub closed_order : Str → Result (Unit {0}) → Prog Response
closed_order job_id (err e) = ret (http_error 502 (codes "关闭微信订单失败: " ++ message e))
closed_order job_id (ok _) = do_cancel job_id

unfoldable pub cancel_found : Str → GetReply → Prog Response
cancel_found job_id (get_failed e) = ret (http_error 500 (codes "server error"))
cancel_found job_id not_found = ret missing
cancel_found job_id (found job) =
    if is_cancelled job.status
    then ret (cancelled_answer job.id)
    else if job.paid || is_ready job.status
    then ret (http_error 409 (codes "订单已支付或已放行，无法取消"))
    else if is_awaiting job.status
    then (do closed ← close_native_order job_id; closed_order job_id closed)
    else do_cancel job_id

-- Service.handleCancelJob
unfoldable pub handle_cancel_job : Str → Prog Response
handle_cancel_job job_id = do r ← Effects.get job_id; cancel_found job_id r

-- What the handlers read of a request.
pub record Request : Type 0 where
  pub method : Method
  pub path : Str  -- r.URL.Path
  pub format : Str  -- the query's `format`
  pub accept : Str  -- the header `Accept`

-- wantsJSON
unfoldable pub wants_json : Request → Bool
wants_json r =
    to_upper (trim_space r.format) === codes "JSON"
    || contains (codes "application/json") (to_lower r.accept)

-- The name under which the result is downloaded.
abbrev pub result_name : Str
result_name = codes "比对结果.xlsx"

unfoldable pub url_answer : Request → Str → Response → Response
url_answer r url other =
    if wants_json r
    then json 200 ((codes "url", text url) ∷ (codes "filename", text result_name) ∷ [])
    else other

unfoldable pub signed_answer : Request → Result Str → Response
unfolding url_answer
signed_answer r (err e) = http_error 502 (codes "生成下载链接失败")
signed_answer r (ok signed) = url_answer r signed (redirect signed)

unfoldable pub local_answer : Request → Str → Option GoError → Response
unfolding url_answer
local_answer r path (some e) = http_error 410 (codes "结果文件不存在或已过期")
local_answer r path none = url_answer r r.path (serve_file path)

unfoldable pub download_found : Option OssStore.Store → Request → GetReply → Prog Response
unfolding signed_answer local_answer
download_found oss r (get_failed e) = ret (http_error 500 (codes "server error"))
download_found oss r not_found = ret missing
download_found oss r (found job) =
    if is_cancelled job.status
    then ret (http_error 410 (codes "订单已取消"))
    else if not job.paid || not (is_ready job.status) || not (has_result job)
    then ret (http_error 402 (codes "请先完成支付后再下载结果"))
    else if not (job.result_oss_key === []) && is_enabled oss
    then (do
      signed ← perform (oss_sign job.result_oss_key result_name)
      ret (signed_answer r signed))
    else if job.result_path === []
    then ret (http_error 410 (codes "结果文件不存在或已过期"))
    else (do e ← perform (stat job.result_path); ret (local_answer r job.result_path e))

-- Service.handleDownloadExport
unfoldable pub handle_download : Option OssStore.Store → Request → Str → Prog Response
handle_download oss r job_id = do reply ← Effects.get job_id; download_found oss r reply

-- A route that answers one method.
unfoldable pub on_get : Method → Prog Response → Prog Response
on_get options p = ret no_content
on_get get p = p
on_get _ p = ret (http_error 405 (codes "method not allowed"))

unfoldable pub on_post : Method → Prog Response → Prog Response
on_post options p = ret no_content
on_post post p = p
on_post _ p = ret (http_error 405 (codes "method not allowed"))

unfoldable pub route : Option OssStore.Store → Request → List Str → Prog Response
unfolding on_get on_post
route oss r [] = ret missing
route oss r ([] ∷ rest) = ret (http_error 400 (codes "jobId required"))
route oss r (job_id ∷ []) = on_get r.method (handle_get_job job_id)
route oss r (job_id ∷ action ∷ []) =
    if action === codes "export"
    then on_get r.method (handle_download oss r job_id)
    else if action === codes "cancel"
    then on_post r.method (handle_cancel_job job_id)
    else ret missing
route oss r (job_id ∷ action ∷ more ∷ rest) = ret missing

-- Service.handleJobRoutes
unfoldable pub handle_job_routes : Option OssStore.Store → Request → Prog Response
unfolding route
handle_job_routes oss r =
    let path = trim_slashes (trim_prefix (codes "/compare/jobs/") r.path) in
    if path === []
    then ret (http_error 400 (codes "jobId required"))
    else route oss r (split slash path)
