-- ===== src/Lifecycle/PayGate.antt =====
-- The payment gate may run beside any other programs.
use guangyang.Prelude.{ℕ, ◌<◌, ◌==◌, ◌≡◌, Bool, true, false, arith, ◌∙◌}
use guangyang.Text.{Str, is_blank, trim_space}
use guangyang.Text.Blank.{is_blank-trim_space}
use guangyang.Domain.{CompareJob}
use guangyang.Errors.{GoError, Result, ok, err}
use guangyang.Effects.{◌>>=◌}
use guangyang.Lifecycle.Locks.{with_lock-IsSafe}
use guangyang.Wechat.Native.{create_native_order}
use guangyang.Paygate
use guangyang.Lifecycle.Invariant.{
  Allowed, release_free-Allowed, release_paid-Allowed, await_payment-Allowed, mark_failed-Allowed,
}
use guangyang.Lifecycle.Orders.{GoodUrl, create_native_order-IsSafe}
use guangyang.Lifecycle.Safe.{
  Seen, see, see_now, IsSafe, Any, IsSafe-ret, IsSafe-get, IsSafe-bind, safe_rules,
}

fee_pos : (fee : ℕ) → (fee == 0) ≡ false → 0 < fee
fee_pos fee h = ground arith

Allowed-of_true : {b : Bool} {f : CompareJob → CompareJob} → b ≡ true → Allowed true f → Allowed b f
Allowed-of_true e h = rw e h

trimmed_nonblank : (s : Str) → is_blank s ≡ false → is_blank (trim_space s) ≡ false
trimmed_nonblank s h = is_blank-trim_space s ∙ h

ruleset pay_rules = (
  safe_rules, mark_failed-Allowed, release_free-Allowed, await_payment-Allowed, fee_pos,
  trimmed_nonblank,
)

fail-IsSafe : (p : Seen) (id : Str) (e : GoError) → IsSafe Any p (Paygate.fail id e)
unfolding Paygate.fail ◌>>=◌
fail-IsSafe p id e = search pay_rules depth 20

module _ (id oss_key : Str) (key_ok : is_blank oss_key ≡ false) where
  ordered-IsSafe :
      (p : Seen) (fee : ℕ)
      → 0 < fee
      → (r : Result Str) → GoodUrl r
      → IsSafe Any p (Paygate.ordered id oss_key fee r)
  unfolding Paygate.ordered ◌>>=◌
  ordered-IsSafe p fee pos (err e) h = IsSafe-bind (fail-IsSafe p id _) (λ p' a _. IsSafe-ret tt)
  ordered-IsSafe p fee pos (ok url) h = search pay_rules depth 20

  order-IsSafe :
      (p : Seen) (fee : ℕ)
      → 0 < fee
      → IsSafe Any p (create_native_order id fee >>= Paygate.ordered id oss_key fee)
  order-IsSafe p fee pos =
      IsSafe-bind (create_native_order-IsSafe p id fee) (λ p' r h. ordered-IsSafe p' fee pos r h)

  charge-IsSafe :
      (p : Seen) (job : CompareJob) (fee : ℕ) → IsSafe Any p (Paygate.charge id oss_key job fee)
  unfolding Paygate.charge ◌>>=◌
  charge-IsSafe p job fee = search (pay_rules, order-IsSafe) depth 20

gate-IsSafe :
    (p : Seen) (id : Str) (job : CompareJob) → IsSafe Any (see p id job.paid) (Paygate.gate id job)
unfolding Paygate.gate ◌>>=◌
gate-IsSafe p id job =
    search (pay_rules, charge-IsSafe, see_now p id job.paid, Allowed-of_true, release_paid-Allowed)
      depth 20

-- Worker.Process of paygate, for any worker and any job.
pub process-IsSafe :
    (p : Seen) (w : Paygate.Worker) (id : Str) → IsSafe Any p (Paygate.process w id)
unfolding Paygate.process Paygate.on_job ◌>>=◌
process-IsSafe p w id = search (safe_rules, with_lock-IsSafe, IsSafe-get, gate-IsSafe) depth 20
