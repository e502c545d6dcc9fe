-- ===== src/Lifecycle/Comparing.antt =====
-- The compare worker may run beside any other programs.
use guangyang.Prelude.{Option, none, some}
use guangyang.Text.{Str}
use guangyang.Domain.{CompareJob}
use guangyang.Errors.{GoError, Result, ok, err}
use guangyang.Effects.{Prog, ◌>>=◌, GetReply, get_failed, not_found, found}
use guangyang.OssStore
use guangyang.Compare.Worker
use guangyang.Lifecycle.Invariant.{
  mark_processing-Allowed, store_result-Allowed, worker_failed-Allowed,
}
use guangyang.Lifecycle.Keys.{object_key_for_job_nonblank}
use guangyang.Lifecycle.Locks.{with_lock-IsSafe}
use guangyang.Lifecycle.Safe.{
  Seen, IsSafe, Any, IsSafe-ret, IsSafe-call, IsSafe-get, IsSafe-bind, safe_rules,
}

ruleset worker_rules = (
  safe_rules, IsSafe-get, mark_processing-Allowed, store_result-Allowed, worker_failed-Allowed,
  object_key_for_job_nonblank,
)

fail-IsSafe : (p : Seen) (id : Str) (e : GoError) → IsSafe Any p (Worker.fail id e)
unfolding Worker.fail ◌>>=◌
fail-IsSafe p id e = search worker_rules depth 20

give_up-IsSafe : (p : Seen) (id : Str) (e : GoError) → IsSafe Any p (Worker.give_up id e)
unfolding Worker.give_up
give_up-IsSafe p id e = IsSafe-bind (fail-IsSafe p id e) (λ p' a _. IsSafe-ret tt)

check-IsSafe :
    (p : Seen) (id : Str) (f : GoError → GoError) (e : Option GoError)
    (next : Prog (Option GoError))
    → IsSafe Any p next
    → IsSafe Any p (Worker.check id f e next)
unfolding Worker.check
check-IsSafe p id f (some e) next h = give_up-IsSafe p id (f e)
check-IsSafe p id f none next h = h

enqueued-IsSafe : (p : Seen) (e : Option GoError) → IsSafe Any p (Worker.enqueued e)
unfolding Worker.enqueued
enqueued-IsSafe p (some e) = IsSafe-ret tt
enqueued-IsSafe p none = IsSafe-ret tt

enqueue_pay-IsSafe :
    (p : Seen) (w : Worker.Worker) (id : Str) → IsSafe Any p (Worker.enqueue_pay w id)
unfolding Worker.enqueue_pay ◌>>=◌
enqueue_pay-IsSafe p w id = search (worker_rules, give_up-IsSafe, enqueued-IsSafe) depth 20

finish-IsSafe :
    (p : Seen) (w : Worker.Worker) (id : Str) (r : GetReply) → IsSafe Any p (Worker.finish w id r)
unfolding Worker.finish
finish-IsSafe p w id (get_failed e) = IsSafe-ret tt
finish-IsSafe p w id not_found = IsSafe-ret tt
finish-IsSafe p w id (found job) = search (worker_rules, enqueue_pay-IsSafe) depth 20

module _ (w : Worker.Worker) (oss : OssStore.Store) (id : Str) where
  upload-IsSafe :
      (p : Seen) (path : Str) (e : Option GoError) → IsSafe Any p (Worker.upload w oss id path e)
  unfolding Worker.upload ◌>>=◌
  upload-IsSafe p path e = search (worker_rules, check-IsSafe, finish-IsSafe) depth 20

  export-IsSafe :
      (p : Seen) (dir : Str) (job : CompareJob) (local1 : Str) (r : Result Str)
      → IsSafe Any p (Worker.export w oss id dir job local1 r)
  unfolding Worker.export ◌>>=◌
  export-IsSafe p dir job local1 (err e) = give_up-IsSafe p id e
  export-IsSafe p dir job local1 (ok local2) = IsSafe-call (λ r. upload-IsSafe p _ r)

  convert_second-IsSafe :
      (p : Seen) (dir : Str) (job : CompareJob) (local2 : Str) (r : Result Str)
      → IsSafe Any p (Worker.convert_second w oss id dir job local2 r)
  unfolding Worker.convert_second ◌>>=◌
  convert_second-IsSafe p dir job local2 (err e) = give_up-IsSafe p id e
  convert_second-IsSafe p dir job local2 (ok local1) =
      IsSafe-call (λ r. export-IsSafe p dir job local1 r)

  compare_files-IsSafe :
      (p : Seen) (job : CompareJob) → IsSafe Any p (Worker.compare_files w oss id job)
  unfolding Worker.compare_files ◌>>=◌
  compare_files-IsSafe p job = search (worker_rules, check-IsSafe, convert_second-IsSafe) depth 20

with_oss-IsSafe :
    (p : Seen) (w : Worker.Worker) (id : Str) (job : CompareJob) (oss : Option OssStore.Store)
    → IsSafe Any p (Worker.with_oss w id job oss)
unfolding Worker.with_oss
with_oss-IsSafe p w id job none = give_up-IsSafe p id _
with_oss-IsSafe p w id job (some oss) =
    search (safe_rules, give_up-IsSafe, compare_files-IsSafe) depth 20

-- Worker.Process of compare, for any worker and any job.
pub worker-IsSafe : (p : Seen) (w : Worker.Worker) (id : Str) → IsSafe Any p (Worker.process w id)
unfolding Worker.process Worker.on_job ◌>>=◌
worker-IsSafe p w id =
    search (safe_rules, with_lock-IsSafe, IsSafe-get, enqueue_pay-IsSafe, with_oss-IsSafe) depth 20
