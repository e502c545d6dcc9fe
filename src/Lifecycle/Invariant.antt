-- ===== src/Lifecycle/Invariant.antt =====
-- What holds of a stored job between two writes, and that each closure handed to `Update` keeps it.
use guangyang.Prelude.{ℕ, ◌<◌, ◌≡◌, refl, Bool, true, false, is_some, arith}
use guangyang.Text.{Str, is_blank}
use guangyang.Float.Error.{quotient-pos}
use guangyang.Domain.{CompareJob, Time, awaiting_payment, ready, cancelled, has_result, yuan_of_fen}
use guangyang.Paygate
use guangyang.Compare.Worker
use guangyang.Compare.Service
use guangyang.Compare.Service.Create
use guangyang.Wechat.Notify.{confirm_payment}

pub record JobInv (j : CompareJob) : Type 0 where
  -- A released job is paid, and has its result.
  pub ready_paid : j.status ≡ ready → j.paid ≡ true
  pub ready_result : j.status ≡ ready → has_result j ≡ true
  -- Payment and cancellation are dated.
  pub paid_dated : j.paid ≡ true → is_some j.paid_at ≡ true
  pub cancelled_dated : j.status ≡ cancelled → is_some j.cancelled_at ≡ true
  -- A job that waits for payment is not paid, and shows a price, a code and a result.
  pub awaiting_unpaid : j.status ≡ awaiting_payment → j.paid ≡ false
  pub awaiting_priced : j.status ≡ awaiting_payment → 0 < j.amount_yuan
  pub awaiting_code : j.status ≡ awaiting_payment → is_blank j.code_url ≡ false
  pub awaiting_result : j.status ≡ awaiting_payment → has_result j ≡ true

-- What no write takes back.
pub record Keeps (j k : CompareJob) : Type 0 where
  pub same_id : k.id ≡ j.id
  pub same_created : k.created_at ≡ j.created_at
  pub stays_paid : j.paid ≡ true → k.paid ≡ true
  pub same_payment : j.paid ≡ true → k.paid_at ≡ j.paid_at

pub Keeps-refl : (j : CompareJob) → Keeps j j
Keeps-refl j = ground arith

pub Keeps-trans : {j k l : CompareJob} → Keeps j k → Keeps k l → Keeps j l
Keeps-trans h g = ground arith

-- A write that keeps the invariant and takes nothing back, of a job that is known to be paid if `p`.
pub record Allowed (p : Bool) (f : CompareJob → CompareJob) : Type 0 where
  pub inv : (j : CompareJob) → JobInv j → (p ≡ true → j.paid ≡ true) → JobInv (f j)
  pub keeps : (j : CompareJob) → JobInv j → Keeps j (f j)

pub mark_failed-Allowed : (p : Bool) (msg : Str) → Allowed p (Paygate.mark_failed msg)
unfolding Paygate.mark_failed
mark_failed-Allowed p msg = record { inv = λ j h _. ground arith; keeps = λ j h. ground arith }

pub worker_failed-Allowed : (p : Bool) (msg : Str) → Allowed p (Worker.mark_failed msg)
unfolding Worker.mark_failed
worker_failed-Allowed p msg = record { inv = λ j h _. ground arith; keeps = λ j h. ground arith }

pub release_paid-Allowed :
    (oss_key : Str) → is_blank oss_key ≡ false → Allowed true (Paygate.release_paid oss_key)
unfolding Paygate.release_paid has_result
release_paid-Allowed oss_key b = record {
  inv = λ j h k. let paid = k refl in ground arith;
  keeps = λ j h. ground arith;
}

pub release_free-Allowed :
    (p : Bool) (oss_key : Str) (t : Time)
    → is_blank oss_key ≡ false
    → Allowed p (Paygate.release_free oss_key t)
unfolding Paygate.release_free has_result
release_free-Allowed p oss_key t b = record {
  inv = λ j h k. ground arith;
  keeps = λ j h. ground arith;
}

yuan_of_fen-pos : (fee : ℕ) → 0 < fee → 0 < yuan_of_fen fee
unfolding yuan_of_fen
yuan_of_fen-pos fee pos = quotient-pos fee pos

pub await_payment-Allowed :
    (p : Bool) (oss_key : Str) (fee : ℕ) (url : Str)
    → is_blank oss_key ≡ false
    → 0 < fee
    → is_blank url ≡ false
    → Allowed p (Paygate.await_payment oss_key fee url)
unfolding Paygate.await_payment has_result
await_payment-Allowed p oss_key fee url b pos u = record {
  inv = λ j h k. let priced = yuan_of_fen-pos fee pos in ground arith;
  keeps = λ j h. ground arith;
}

pub mark_processing-Allowed : (p : Bool) → Allowed p Worker.mark_processing
unfolding Worker.mark_processing
mark_processing-Allowed p = record { inv = λ j h _. ground arith; keeps = λ j h. ground arith }

pub store_result-Allowed :
    (p : Bool) (oss_key : Str) → is_blank oss_key ≡ false → Allowed p (Worker.store_result oss_key)
unfolding Worker.store_result has_result
store_result-Allowed p oss_key b = record {
  inv = λ j h _. ground arith;
  keeps = λ j h. ground arith;
}

pub cancel_job-Allowed : (p : Bool) (t : Time) → Allowed p (Service.cancel_job t)
unfolding Service.cancel_job
cancel_job-Allowed p t = record { inv = λ j h _. ground arith; keeps = λ j h. ground arith }

pub confirm_payment-Allowed : (p : Bool) (t : Time) → Allowed p (confirm_payment t)
unfolding confirm_payment has_result
confirm_payment-Allowed p t = record { inv = λ j h _. ground arith; keeps = λ j h. ground arith }

pub mark_unqueued-Allowed : (p : Bool) (msg : Str) → Allowed p (Create.mark_unqueued msg)
unfolding Create.mark_unqueued
mark_unqueued-Allowed p msg = record { inv = λ j h _. ground arith; keeps = λ j h. ground arith }
