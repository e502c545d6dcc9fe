-- ===== src/Paygate.antt =====
-- gobackend/paygate/worker.go: the payment gate. A job with a result becomes free, or waits for
-- payment, or is released.
use guangyang.Prelude.{
  ℕ, Bool, true, ◌||◌, ◌&&◌, not, ◌++◌, [], Option, none, some, ◌==◌, if◌then◌else◌,
}
use guangyang.Text.{Str, codes, trim_space, is_blank}
use guangyang.Domain.{
  CompareJob, Time, ready, failed, awaiting_payment, is_cancelled, is_ready, is_failed, is_awaiting,
  yuan_of_fen,
}
use guangyang.Errors.{GoError, new, wrap, message, to_terminal, Result, ok, err}
use guangyang.Config.{fee_fen}
use guangyang.RedisLock.{Client, with_lock}
use guangyang.Wechat.Native.{create_native_order}
use guangyang.Effects.{
  Prog, ret, ◌>>=◌, ◌>>◌, perform, get, update, GetReply, get_failed, not_found, found, now, getenv,
}

-- `w.store` is always set where NewWorker made the worker; `w.lock` may be nil.
pub record Worker : Type 0 where
  pub initialised : Bool  -- w != nil && w.store != nil
  pub lock : Option Client

-- The closures that `Process` hands to `Update`.
module _ (oss_key : Str) where
  unfoldable pub release_paid : CompareJob → CompareJob
  release_paid j = if is_cancelled j.status then j else record j {
    status = ready;
    result_oss_key = oss_key;
    result_path = [];
    amount_yuan = 0;
    code_url = [];
    error = [];
  }

  unfoldable pub release_free : Time → CompareJob → CompareJob
  release_free t j = if is_cancelled j.status then j else record j {
    paid = true;
    paid_at = if j.paid then j.paid_at else some t;
    status = ready;
    result_oss_key = oss_key;
    result_path = [];
    amount_yuan = 0;
    code_url = [];
    error = [];
  }

  unfoldable pub await_payment : ℕ → Str → CompareJob → CompareJob
  await_payment fee url j = if is_cancelled j.status || j.paid then j else record j {
    status = awaiting_payment;
    result_oss_key = oss_key;
    result_path = [];
    amount_yuan = yuan_of_fen fee;
    code_url = url;
    error = [];
  }

-- The closure of `fail`.
unfoldable pub mark_failed : Str → CompareJob → CompareJob
mark_failed msg j = record j { status = failed; error = msg }

-- Worker.fail; its callers always have an error.
unfoldable pub fail : Str → GoError → Prog (Option GoError)
fail job_id e =
    if is_blank job_id
    then ret (some e)
    else update job_id (mark_failed (message e)) >> ret (some e)

module _ (job_id oss_key : Str) where
  unfoldable pub ordered : ℕ → Result Str → Prog (Option GoError)
  ordered fee (err e) = do x ← fail job_id (wrap (codes "创建微信支付订单失败: ") e); ret (to_terminal x)
  ordered fee (ok code_url) = do
    update job_id (await_payment oss_key fee code_url)
    ret (to_terminal none)

  -- The job has a result and is not paid.
  unfoldable pub charge : CompareJob → ℕ → Prog (Option GoError)
  charge job fee =
      if fee == 0
      then (do t ← perform now; update job_id (release_free oss_key t); ret (to_terminal none))
      else if is_awaiting job.status && not (is_blank job.code_url)
      then ret (to_terminal none)
      else (do r ← create_native_order job_id fee; ordered fee r)

unfoldable pub gate : Str → CompareJob → Prog (Option GoError)
gate job_id job =
    let oss_key = trim_space job.result_oss_key in
    if is_cancelled job.status || is_ready job.status || is_failed job.status
    then ret (to_terminal none)
    else if is_blank job.result_oss_key
    then ret (some (new (codes "result not ready (ResultOSSKey empty)")))
    else if job.paid
    then (do update job_id (release_paid oss_key); ret (to_terminal none))
    else (do
      raw ← perform (getenv (codes "COMPARE_JOB_FEE_FEN"))
      charge job_id oss_key job (fee_fen raw))

unfoldable pub on_job : Str → GetReply → Prog (Option GoError)
on_job job_id (get_failed e) = ret (some e)
on_job job_id not_found = ret (to_terminal none)
on_job job_id (found job) = gate job_id job

-- Worker.Process; the context is never nil where the consumer calls it.
unfoldable pub process : Worker → Str → Prog (Option GoError)
process w raw_id =
    let job_id = trim_space raw_id in
    if not w.initialised
    then ret (some (new (codes "paygate worker/store 未初始化")))
    else if is_blank raw_id
    then ret (to_terminal (some (new (codes "jobID 为空"))))
    else with_lock w.lock (codes "paygate locked: ") (codes "paygate:" ++ job_id)
        (do r ← get job_id; on_job job_id r)
