-- ===== src/Lifecycle/System/Facts.antt =====
-- What holds of a job in every state that the system reaches.
use guangyang.Prelude.{◌≡◌, arith}
use guangyang.Text.{Str}
use guangyang.Domain.{CompareJob}
use guangyang.Compare.Service.{shown_status}
use guangyang.Lifecycle.Invariant.{JobInv, Keeps}
use guangyang.Lifecycle.System.{alive, Sys, init, Reach}
use guangyang.Lifecycle.System.Effect.{CellInv, CellKeeps}
use guangyang.Lifecycle.System.Preserve.{Reach-StepOk, init-SysInv}

module _ {t : Sys} (reached : Reach init t) (id : Str) {j : CompareJob}
    (stored : t.jobs id ≡ alive j) where
  -- However the workers, the handlers and the notifications interleave, and whichever writes are lost,
  -- every stored job meets `JobInv`: a job that is ready is paid and has a result; a payment and a
  -- cancellation are dated; and a job that awaits payment is unpaid, has a result, a price above 0 and
  -- a code to pay with.
  pub Reach-JobInv : JobInv j
  Reach-JobInv =
      let at : CellInv (alive j) =
        rw stored at ((Reach-StepOk init-SysInv reached).inv.jobs_ok id) in
      at

  -- The status that handleGetJob shows of a stored job is the stored one: the branch that shows a paid
  -- job as ready while it still awaits payment is never taken.
  pub shown_status-stored : shown_status j ≡ j.status
  unfolding shown_status
  shown_status-stored = let inv = Reach-JobInv in ground arith

  -- A payment is never lost: in every later state where the job is still stored, it is paid with the
  -- same date, and it has the same identifier and the same time of creation.
  pub Reach-Keeps : {u : Sys} {k : CompareJob} → Reach t u → u.jobs id ≡ alive k → Keeps j k
  Reach-Keeps {u} {k} later at =
      let ok = Reach-StepOk (Reach-StepOk init-SysInv reached).inv later in
      let kept : CellKeeps (alive j) (alive k) = rw (stored, at) at (ok.keep id) in kept
