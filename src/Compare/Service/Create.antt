-- ===== src/Compare/Service/Create.antt =====
-- handleCreateJob of gobackend/compare/service.go: the upload of two files makes a job.
use guangyang.Prelude.{
  ℕ, ◌+◌, ◌-◌, ◌*◌, ◌^◌, ◌/◌, ◌%◌, Bool, false, ◌||◌, ◌&&◌, not, List, [], ◌∷◌, ◌++◌, Option, none,
  some, ltb, if◌then◌else◌,
}
use guangyang.Text.{Str, codes, trim_space, ◌===◌, to_lower}
use guangyang.Text.Path.{join, ext}
use guangyang.Text.Decimal.{format_nat}
use guangyang.Config.{read_int_default}
use guangyang.Domain.{CompareJob, Time, processing, failed}
use guangyang.Errors.{GoError, message, Result, ok, err}
use guangyang.OssStore
use guangyang.OssStore.{object_key_for_input}
use guangyang.Compare.Worker.{safe_base_name}
use guangyang.Http.{Method, options, post, Response, no_content, http_error, json, text}
use guangyang.Effects.{
  Prog, ret, ◌>>=◌, ◌>>◌, perform, update, create, now, getenv, random, multipart, save_upload,
  mkdir_all, remove, remove_all, oss_put_file, enqueue, compare_queue, Parts, eof, broken, part,
}

unfoldable pub hex_digit : ℕ → ℕ
hex_digit n = if ltb n 10 then b'0' + n else b'a' + (n - 10)

-- hex.EncodeToString
unfoldable pub hex : List ℕ → Str
unfolding hex_digit
hex [] = []
hex (b ∷ bs) = hex_digit (b / 16) ∷ hex_digit (b % 16) ∷ hex bs

-- newJobID, from the random bytes; the time serves where there are none.
unfoldable pub job_id_of : Option (List ℕ) → Prog Str
unfolding hex
job_id_of (some bytes) = ret (codes "job_" ++ hex bytes)
job_id_of none = do t ← perform now; ret (codes "job_" ++ format_nat t)

unfoldable pub new_job_id : Prog Str
unfolding job_id_of
new_job_id = do bytes ← perform (random 12); job_id_of bytes

-- excelContentTypeByName
unfoldable pub content_type : Str → Str
content_type name =
    let e = to_lower (ext (trim_space name)) in
    if e === codes ".xls"
    then codes "application/vnd.ms-excel"
    else if e === codes ".xlsx" || e === codes ".xlsm" || e === codes ".xltx" || e === codes ".xltm"
    then codes "application/vnd.openxmlformats-officedocument.spreadsheetml.sheet"
    else codes "application/octet-stream"

-- The variables of the loop over the parts.
pub record Uploads : Type 0 where
  pub file1_path : Str
  pub file2_path : Str
  pub file1_name : Str
  pub file2_name : Str

abbrev pub no_uploads : Uploads
no_uploads = record { file1_path = []; file2_path = []; file1_name = []; file2_name = [] }

pub record Service : Type 0 where
  pub has_queue : Bool  -- s.queue != nil
  pub tmp_root : Str
  pub oss : Option OssStore.Store

-- The closure for a job that was not enqueued.
unfoldable pub mark_unqueued : Str → CompareJob → CompareJob
mark_unqueued msg j = record j { status = failed; error = codes "投递任务失败: " ++ msg }

unfoldable pub queued : Str → Option GoError → Prog Response
queued job_id (some e) = do
  update job_id (mark_unqueued (message e))
  ret (http_error 502 (codes "投递任务失败"))
queued job_id none =
    ret (json 200 ((codes "jobId", text job_id) ∷ (codes "status", text (codes "processing")) ∷ []))

-- The job that is stored.
unfoldable pub new_job : Str → Time → Str → Str → Uploads → CompareJob
new_job job_id t key1 key2 u = record {
  id = job_id;
  status = processing;
  created_at = t;
  file1_path = [];
  file2_path = [];
  file1_oss_key = key1;
  file2_oss_key = key2;
  file1_name = u.file1_name;
  file2_name = u.file2_name;
  result_path = [];
  result_oss_key = [];
  amount_yuan = 0;
  code_url = [];
  paid = false;
  paid_at = none;
  cancelled_at = none;
  error = [];
}

-- From the second upload on: clean up, store the job, and enqueue it.
unfoldable pub register : Service → Str → Str → Str → Str → Uploads → Prog Response
unfolding queued
register s job_id job_dir key1 key2 u = do
  perform (remove u.file1_path)
  perform (remove u.file2_path)
  perform (remove_all job_dir)
  t ← perform now
  create (new_job job_id t key1 key2 u)
  if s.has_queue
      then (do e ← perform (enqueue compare_queue job_id); queued job_id e)
      else queued job_id none

unfoldable pub put_checked : Option GoError → Prog Response → Prog Response
put_checked (some e) next = ret (http_error 502 (codes "上传 OSS 失败: " ++ message e))
put_checked none next = next

unfoldable pub put_inputs : Service → OssStore.Store → Str → Str → Uploads → Prog Response
unfolding put_checked
put_inputs s oss job_id job_dir u =
    let key1 = object_key_for_input oss job_id (codes "file1") u.file1_name in
    let key2 = object_key_for_input oss job_id (codes "file2") u.file2_name in
    do
      e1 ← perform (oss_put_file key1 u.file1_path (content_type u.file1_name))
      put_checked e1 (do
        e2 ← perform (oss_put_file key2 u.file2_path (content_type u.file2_name))
        put_checked e2 (register s job_id job_dir key1 key2 u))

unfoldable pub with_oss : Service → Option OssStore.Store → Str → Str → Uploads → Prog Response
with_oss s none job_id job_dir u = ret (http_error 503 (codes "OSS 未启用：无法在 worker 模式下处理上传"))
with_oss s (some oss) job_id job_dir u =
    if not oss.enabled
    then ret (http_error 503 (codes "OSS 未启用：无法在 worker 模式下处理上传"))
    else put_inputs s oss job_id job_dir u

-- After the loop over the parts.
unfoldable pub uploaded : Service → Str → Str → Uploads → Prog Response
unfolding with_oss
uploaded s job_id job_dir u =
    if u.file1_path === [] || u.file2_path === []
    then ret (http_error 400 (codes "missing file1 or file2"))
    else with_oss s s.oss job_id job_dir u

-- Where an upload is recorded, by the name of its form field.
unfoldable pub record_upload : Str → Str → Str → Uploads → Uploads
record_upload name fn dst u =
    if name === codes "file1"
    then record u { file1_path = dst; file1_name = fn }
    else record u { file2_path = dst; file2_name = fn }

unfoldable pub saved : Str → Str → Uploads → (Uploads → Prog Response) → Result Str → Prog Response
unfolding record_upload
saved name fn u next (err e) = ret (http_error 500 (codes "failed to save " ++ name))
saved name fn u next (ok dst) = next (record_upload name fn dst u)

-- The loop over the parts.
unfoldable pub read_parts : Service → Str → Str → Parts → Uploads → Prog Response
unfolding uploaded saved
read_parts s job_id job_dir eof u = uploaded s job_id job_dir u
read_parts s job_id job_dir broken u = ret (http_error 400 (codes "invalid multipart stream"))
read_parts s job_id job_dir (part form_name file_name ps) u =
    let next = read_parts s job_id job_dir ps in
    let name = trim_space form_name in
    let fn = safe_base_name file_name in
    if not (name === codes "file1") && not (name === codes "file2") then next u else (do
      dst ← perform (save_upload job_dir ((name ++ codes "_") ++ fn))
      saved name fn u next dst)

unfoldable pub made_dir : Service → Str → Str → Parts → Option GoError → Prog Response
made_dir s job_id job_dir ps (some e) = ret (http_error 500 (codes "failed to create job dir"))
made_dir s job_id job_dir ps none = read_parts s job_id job_dir ps no_uploads

unfoldable pub on_multipart : Service → Result Parts → Prog Response
unfolding made_dir
on_multipart s (err e) = ret (http_error 400 (codes "invalid multipart form"))
on_multipart s (ok ps) = do
  job_id ← new_job_id
  let job_dir = join (s.tmp_root ∷ codes "compare_jobs" ∷ job_id ∷ [])
  made ← perform (mkdir_all job_dir)
  made_dir s job_id job_dir ps made

-- Service.handleCreateJob
unfoldable pub handle_create_job : Service → Method → Prog Response
handle_create_job s options = ret no_content
handle_create_job s post = do
  raw ← perform (getenv (codes "COMPARE_MAX_UPLOAD_MB"))
  ps ← perform (multipart (read_int_default 128 raw * 2 ^ 20))
  on_multipart s ps
handle_create_job s _ = ret (http_error 405 (codes "method not allowed"))
