-- ===== src/Compare/Worker.antt =====
-- gobackend/compare/worker.go: the worker of the compare stream.
use guangyang.Prelude.{Bool, ◌||◌, ◌&&◌, not, ◌∷◌, ◌++◌, [], Option, none, some, if◌then◌else◌}
use guangyang.Text.{Str, codes, is_blank, ◌===◌}
use guangyang.Text.Path.{base, join}
use guangyang.Domain.{
  CompareJob, processing, failed, is_cancelled, is_ready, is_failed, is_awaiting, is_processing,
}
use guangyang.Errors.{GoError, new, wrap, message, to_terminal, Result, ok, err}
use guangyang.OssStore
use guangyang.OssStore.{object_key_for_job, is_enabled}
use guangyang.RedisLock.{Client, with_lock}
use guangyang.Effects.{
  Prog, ret, ◌>>=◌, ◌>>◌, perform, get, update, GetReply, get_failed, not_found, found, enqueue,
  pay_queue, mkdir_all, remove, oss_get_file, oss_put_result, convert_xls, export_xlsx,
}

-- The slots of `inflight` only delay a call, so they are not part of the state.
pub record Worker : Type 0 where
  pub initialised : Bool  -- w != nil && w.store != nil
  pub tmp_root : Str
  pub oss : Option OssStore.Store
  pub has_payq : Bool  -- w.payq != nil
  pub lock : Option Client

-- safeBaseNameFromName of service.go
unfoldable pub safe_base_name : Str → Str
safe_base_name name = if is_blank name then codes "upload.xlsx" else base name

-- The closures that `Process` hands to `Update`.
unfoldable pub mark_processing : CompareJob → CompareJob
mark_processing j =
    if is_cancelled j.status then j else record j { status = processing; error = [] }

unfoldable pub store_result : Str → CompareJob → CompareJob
store_result oss_key j =
    if is_cancelled j.status then j else record j { result_oss_key = oss_key; result_path = [] }

-- The closure of `fail`.
unfoldable pub mark_failed : Str → CompareJob → CompareJob
mark_failed msg j = record j { status = failed; error = msg }

-- Worker.fail; its callers always have an error.
unfoldable pub fail : Str → GoError → Prog (Option GoError)
fail job_id e =
    if is_blank job_id
    then ret (some e)
    else update job_id (mark_failed (message e)) >> ret (some e)

-- `return streamq.Terminal(w.fail(jobID, e))`
unfoldable pub give_up : Str → GoError → Prog (Option GoError)
unfolding fail
give_up job_id e = do x ← fail job_id e; ret (to_terminal x)

-- One step of `Process` that may fail: an error ends the job.
unfoldable pub check :
    Str → (GoError → GoError) → Option GoError → Prog (Option GoError) → Prog (Option GoError)
check job_id f (some e) next = give_up job_id (f e)
check job_id f none next = next

unfoldable pub enqueued : Option GoError → Prog (Option GoError)
enqueued (some e) = ret (some e)
enqueued none = ret (to_terminal none)

-- Hand the job to the pay gate.
unfoldable pub enqueue_pay : Worker → Str → Prog (Option GoError)
unfolding enqueued
enqueue_pay w job_id =
    if not w.has_payq
    then give_up job_id (new (codes "paygate queue 未初始化"))
    else (do e ← perform (enqueue pay_queue job_id); enqueued e)

-- The job as it is read again after the result was stored.
unfoldable pub finish : Worker → Str → GetReply → Prog (Option GoError)
finish w job_id (get_failed e) = ret (some e)
finish w job_id not_found = ret none
finish w job_id (found job) =
    if is_cancelled job.status then ret (to_terminal none) else enqueue_pay w job_id

-- From the export on: upload the result, store its key, and read the job again.
unfoldable pub upload : Worker → OssStore.Store → Str → Str → Option GoError → Prog (Option GoError)
upload w oss job_id result_path exported =
    let oss_key = object_key_for_job oss job_id in
    check job_id (λ e. e) exported
      (do
        put ← perform (oss_put_result oss_key result_path)
        check job_id (wrap (codes "上传 OSS 失败: ")) put (do
          perform (remove result_path)
          update job_id (store_result oss_key)
          again ← get job_id
          finish w job_id again))

-- convertXLSIfNeeded for both files, and the comparison.
unfoldable pub export :
    Worker → OssStore.Store → Str → Str → CompareJob → Str → Result Str → Prog (Option GoError)
export w oss job_id job_dir job local1 (err e) = give_up job_id e
export w oss job_id job_dir job local1 (ok local2) =
    let result_path = join (job_dir ∷ codes "comparison_result.xlsx" ∷ []) in
    do
      e ← perform (export_xlsx local1 local2 job.file1_name job.file2_name result_path)
      upload w oss job_id result_path e

unfoldable pub convert_second :
    Worker → OssStore.Store → Str → Str → CompareJob → Str → Result Str → Prog (Option GoError)
convert_second w oss job_id job_dir job local2 (err e) = give_up job_id e
convert_second w oss job_id job_dir job local2 (ok local1) = do
  new2 ← perform (convert_xls local2)
  export w oss job_id job_dir job local1 new2

-- From the point where the job is marked as processing.
unfoldable pub compare_files : Worker → OssStore.Store → Str → CompareJob → Prog (Option GoError)
compare_files w oss job_id job =
    let job_dir = join (w.tmp_root ∷ codes "compare_jobs" ∷ job_id ∷ []) in
    let local1 = join (job_dir ∷ (codes "file1_" ++ safe_base_name job.file1_name) ∷ []) in
    let local2 = join (job_dir ∷ (codes "file2_" ++ safe_base_name job.file2_name) ∷ []) in
    do
      update job_id mark_processing
      made ← perform (mkdir_all job_dir)
      check job_id (wrap (codes "创建 jobDir 失败: ")) made (do
        e1 ← perform (oss_get_file job.file1_oss_key local1)
        check job_id (wrap (codes "下载输入文件1失败: ")) e1 (do
          e2 ← perform (oss_get_file job.file2_oss_key local2)
          check job_id (wrap (codes "下载输入文件2失败: ")) e2 (do
            new1 ← perform (convert_xls local1)
            convert_second w oss job_id job_dir job local2 new1)))

unfoldable pub with_oss : Worker → Str → CompareJob → Option OssStore.Store → Prog (Option GoError)
with_oss w job_id job none = give_up job_id (new (codes "OSS 未启用"))
with_oss w job_id job (some oss) =
    if not oss.enabled
    then give_up job_id (new (codes "OSS 未启用"))
    else if job.file1_oss_key === [] || job.file2_oss_key === []
    then give_up job_id (new (codes "输入文件 OSSKey 为空"))
    else compare_files w oss job_id job

unfoldable pub on_job : Worker → Str → GetReply → Prog (Option GoError)
on_job w job_id (get_failed e) = ret (some e)
on_job w job_id not_found = ret none
on_job w job_id (found job) =
    if is_cancelled job.status || is_ready job.status || is_failed job.status
    then ret (to_terminal none)
    else if not (is_blank job.result_oss_key)
        && (is_awaiting job.status || is_processing job.status)
    then enqueue_pay w job_id
    else with_oss w job_id job w.oss

-- Worker.Process; the context is never nil where the consumer calls it.
unfoldable pub process : Worker → Str → Prog (Option GoError)
process w job_id =
    if not w.initialised
    then ret (some (new (codes "worker/store 未初始化")))
    else with_lock w.lock (codes "job locked: ") job_id (do r ← get job_id; on_job w job_id r)
