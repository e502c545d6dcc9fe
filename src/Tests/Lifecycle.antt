-- ===== src/Tests/Lifecycle.antt =====
-- The theorems on the life of a job, applied to a run and to a job.
use guangyang.Prelude.{◌≡◌, ◌≢◌, ◌/◌, refl, true, some, arith}
use guangyang.Prelude.Int.{ℤ, pos}
use guangyang.Text.{codes, is_blank, trim_space, ◌===◌}
use guangyang.Float.{product, one}
use guangyang.Domain.{CompareJob, ready, has_result, yuan_of_fen, fen_of_yuan}
use guangyang.Effects.{ret, found}
use guangyang.Paygate.{await_payment}
use guangyang.Compare.Service.Create.{new_job}
use guangyang.Compare.Service.{shown_status, cancel_job}
use guangyang.Wechat.Notify.{check_amount, confirm, confirm_payment, answer_fail}
use guangyang.Lifecycle.Invariant.{JobInv, Keeps}
use guangyang.Lifecycle.System.Facts.{Reach-JobInv, shown_status-stored, Reach-Keeps}
use guangyang.Lifecycle.Payment.{
  check_amount-await_payment, confirm_payment-await_payment, cancel_job-confirm_payment,
  fen_of_yuan-yuan_of_fen,
}
use guangyang.Tests.Runs.{
  job_id, first_job, uploaded-Reach, uploaded-first_job, cancelled-Reach, cancelled_job,
}

Reach-JobInv_example : JobInv first_job
Reach-JobInv_example = Reach-JobInv uploaded-Reach job_id uploaded-first_job

shown_status-stored_example : shown_status first_job ≡ first_job.status
shown_status-stored_example = shown_status-stored uploaded-Reach job_id uploaded-first_job

Reach-Keeps_example : Keeps first_job (cancel_job 1_700_000_000 first_job)
Reach-Keeps_example =
    Reach-Keeps uploaded-Reach job_id uploaded-first_job cancelled-Reach cancelled_job

abbrev awaiting : CompareJob
awaiting = await_payment (codes "results/a.xlsx") 501 (codes "weixin://pay") first_job

check_amount-await_payment_example :
    (check_amount job_id (pos 501) (found awaiting) ≡ confirm job_id)
    × ((total : ℤ)
        → total ≢ pos 501
        → check_amount job_id total (found awaiting)
          ≡ ret (answer_fail 400 (codes "amount mismatch")))
check_amount-await_payment_example =
    check_amount-await_payment job_id (codes "results/a.xlsx") (codes "weixin://pay") 501 first_job
      (omega arith) (omega arith) (unfold first_job new_job in refl)
      (unfold first_job new_job in refl)

fen_of_yuan-yuan_of_fen_example : fen_of_yuan (yuan_of_fen 113) ≡ 113
fen_of_yuan-yuan_of_fen_example = fen_of_yuan-yuan_of_fen 113 (omega arith)

-- 1.13 * 100.0 is below 113.0.
truncated : product (yuan_of_fen 113) 100 / one ≡ 112
unfolding yuan_of_fen product one
truncated = refl

confirm_payment-await_payment_example :
    (confirm_payment 7 (await_payment (codes "r") 500 (codes "u") first_job)).status ≡ ready
    × ((confirm_payment 7 (await_payment (codes "r") 500 (codes "u") first_job)).paid ≡ true)
    × ((confirm_payment 7 (await_payment (codes "r") 500 (codes "u") first_job)).paid_at ≡ some 7)
    × (has_result (confirm_payment 7 (await_payment (codes "r") 500 (codes "u") first_job)) ≡ true)
confirm_payment-await_payment_example =
    confirm_payment-await_payment 7 (codes "r") (codes "u") 500 first_job
      (unfold is_blank trim_space ◌===◌ in refl) (unfold first_job new_job in refl)
      (unfold first_job new_job in refl)

cancel_job-confirm_payment_example :
    cancel_job 9 (confirm_payment 7 first_job) ≡ confirm_payment 7 first_job
cancel_job-confirm_payment_example = cancel_job-confirm_payment 7 9 first_job
