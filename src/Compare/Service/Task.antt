-- ===== src/Compare/Service/Task.antt =====
-- runCompareTask of gobackend/compare/service.go: comparison, payment and release in one program, from
-- before they were split between the two workers. Nothing calls it.
use guangyang.Prelude.{
  ℕ, true, ◌&&◌, ◌||◌, Option, none, some, [], ◌∷◌, ◌++◌, ◌==◌, ◌+◌, ◌-◌, ltb, if◌then◌else◌,
}
use guangyang.Text.{Str, codes, ◌===◌}
use guangyang.Text.Path.{join}
use guangyang.Domain.{CompareJob, Time, ready, failed, awaiting_payment, is_cancelled, yuan_of_fen}
use guangyang.Errors.{GoError, message, Result, ok, err}
use guangyang.Config.{fee_fen}
use guangyang.Disk.{dir}
use guangyang.OssStore
use guangyang.OssStore.{object_key_for_job, is_enabled}
use guangyang.Wechat.Native.{create_native_order}
use guangyang.Compare.Service.Create.{Service}
use guangyang.Effects.{
  Prog, ret, ◌>>=◌, ◌>>◌, perform, get, update, GetReply, get_failed, not_found, found, now, getenv,
  remove, convert_xls, export_xlsx, oss_put_result,
}

-- acquireInflight: the slots taken, of those that there are; `none` waits. No limit is a nil channel.
unfoldable pub acquire_inflight : Option ℕ → ℕ → Option ℕ
acquire_inflight none taken = some taken
acquire_inflight (some slots) taken = if ltb taken slots then some (taken + 1) else none

-- releaseInflight, which takes nothing from an empty channel.
unfoldable pub release_inflight : Option ℕ → ℕ → ℕ
release_inflight none taken = taken
release_inflight (some slots) taken = taken - 1

-- The closures that are handed to `Update`.
unfoldable pub mark_failed : Str → CompareJob → CompareJob
mark_failed msg j = record j { status = failed; error = msg }

unfoldable pub use_converted : Str → Str → CompareJob → CompareJob
use_converted path1 path2 j =
    if is_cancelled j.status then j else record j { file1_path = path1; file2_path = path2 }

-- Where the result is: under a key of the object store, or in a file.
unfoldable pub with_result : Str → Str → CompareJob → CompareJob
unfolding ◌===◌
with_result oss_key path j =
    if oss_key === []
    then record j { result_path = path }
    else record j { result_oss_key = oss_key; result_path = [] }

module _ (oss_key result_path : Str) where
  unfoldable pub keep_result : CompareJob → CompareJob
  unfolding with_result
  keep_result j = if is_cancelled j.status then j else with_result oss_key result_path j

  unfoldable pub release_paid : CompareJob → CompareJob
  unfolding with_result
  release_paid j = with_result oss_key result_path (record j { status = ready })

  unfoldable pub release_free : Time → CompareJob → CompareJob
  unfolding with_result
  release_free t j =
      if is_cancelled j.status then j else record (with_result oss_key result_path j) {
        paid = true;
        paid_at = if j.paid then j.paid_at else some t;
        status = ready;
        amount_yuan = 0;
        code_url = [];
      }

  unfoldable pub order_failed : Str → CompareJob → CompareJob
  unfolding with_result
  order_failed msg j = record (with_result oss_key result_path j) {
    status = failed;
    error = codes "创建微信支付订单失败: " ++ msg;
  }

  unfoldable pub await_payment : ℕ → Str → CompareJob → CompareJob
  unfolding with_result
  await_payment fee url j =
      if is_cancelled j.status || j.paid then j else record (with_result oss_key result_path j) {
        status = awaiting_payment;
        amount_yuan = yuan_of_fen fee;
        code_url = url;
      }

  unfoldable pub ordered : Str → ℕ → Result Str → Prog Unit
  unfolding order_failed await_payment
  ordered job_id fee (err e) = update job_id (order_failed (message e))
  ordered job_id fee (ok url) = update job_id (await_payment fee url)

  -- The fee is asked for, or the job released.
  unfoldable pub ask_fee : Str → ℕ → Prog Unit
  unfolding release_free ordered
  ask_fee job_id fee =
      if fee == 0
      then (do t ← perform now; update job_id (release_free t))
      else (do order ← create_native_order job_id fee; ordered job_id fee order)

  unfoldable pub pay_or_release : Str → CompareJob → Prog Unit
  unfolding release_paid ask_fee fee_fen
  pay_or_release job_id job =
      if job.paid
      then update job_id release_paid
      else (do raw ← perform (getenv (codes "COMPARE_JOB_FEE_FEN")); ask_fee job_id (fee_fen raw))

  -- The job is read twice: for its payment, and for its cancellation.
  unfoldable pub unless_cancelled : Str → CompareJob → GetReply → Prog Unit
  unfolding pay_or_release
  unless_cancelled job_id job (get_failed e) = pay_or_release job_id job
  unless_cancelled job_id job not_found = pay_or_release job_id job
  unless_cancelled job_id job (found j2) =
      if is_cancelled j2.status then ret tt else pay_or_release job_id job

  unfoldable pub refreshed : Str → GetReply → Prog Unit
  unfolding unless_cancelled
  refreshed job_id (get_failed e) = ret tt
  refreshed job_id not_found = ret tt
  refreshed job_id (found job) = do again ← get job_id; unless_cancelled job_id job again

  unfoldable pub stored : Str → Prog Unit
  unfolding keep_result refreshed
  stored job_id = do update job_id keep_result; job ← get job_id; refreshed job_id job

unfoldable pub uploaded_task : Str → Str → Str → Option GoError → Prog Unit
unfolding stored mark_failed
uploaded_task job_id oss_key result_path (some e) =
    update job_id (mark_failed (codes "上传 OSS 失败: " ++ message e))
uploaded_task job_id oss_key result_path none = do
  perform (remove result_path)
  stored oss_key result_path job_id

unfoldable pub upload_task : Str → Str → Option OssStore.Store → Prog Unit
unfolding uploaded_task stored
upload_task job_id result_path none = stored [] result_path job_id
upload_task job_id result_path (some oss) =
    let oss_key = object_key_for_job oss job_id in
    if oss.enabled
    then (do
      put ← perform (oss_put_result oss_key result_path)
      uploaded_task job_id oss_key result_path put)
    else stored [] result_path job_id

unfoldable pub exported : Service → Str → Str → Option GoError → Prog Unit
unfolding mark_failed upload_task
exported s job_id result_path (some e) = update job_id (mark_failed (message e))
exported s job_id result_path none = upload_task job_id result_path s.oss

-- filepath.Dir gives no empty path, so the directory is never the one below tmpRoot.
unfoldable pub compare_task : Service → Str → CompareJob → Str → Str → Prog Unit
unfolding exported
compare_task s job_id job path1 path2 =
    let result_path = join (dir job.file1_path ∷ codes "comparison_result.xlsx" ∷ []) in
    do
      e ← perform (export_xlsx path1 path2 job.file1_name job.file2_name result_path)
      exported s job_id result_path e

-- A file was converted exactly if its path is another: the output never has the input's path.
unfoldable pub converted_second : Service → Str → CompareJob → Str → Result Str → Prog Unit
unfolding mark_failed use_converted compare_task ◌===◌
converted_second s job_id job path1 (err e) = update job_id (mark_failed (message e))
converted_second s job_id job path1 (ok path2) =
    if path1 === job.file1_path && path2 === job.file2_path
    then compare_task s job_id job path1 path2
    else (do update job_id (use_converted path1 path2); compare_task s job_id job path1 path2)

unfoldable pub converted_first : Service → Str → CompareJob → Result Str → Prog Unit
unfolding mark_failed converted_second
converted_first s job_id job (err e) = update job_id (mark_failed (message e))
converted_first s job_id job (ok path1) = do
  second ← perform (convert_xls job.file2_path)
  converted_second s job_id job path1 second

unfoldable pub start_task : Service → Str → GetReply → Prog Unit
unfolding converted_first
start_task s job_id (get_failed e) = ret tt
start_task s job_id not_found = ret tt
start_task s job_id (found job) =
    if is_cancelled job.status
    then ret tt
    else (do first ← perform (convert_xls job.file1_path); converted_first s job_id job first)

-- runCompareTask, between its acquireInflight and its releaseInflight.
unfoldable pub run_compare_task : Service → Str → Prog Unit
unfolding start_task
run_compare_task s job_id = do r ← get job_id; start_task s job_id r
