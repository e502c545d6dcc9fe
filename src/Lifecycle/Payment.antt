-- ===== src/Lifecycle/Payment.antt =====
-- The payment of a job across the payment gate, the notification, the cancellation and the download.
use guangyang.Prelude.{
  ℕ, ◌<◌, ◌≤◌, ◌^◌, ◌≡◌, ◌≢◌, ap, inl, inr, refl, true, false, some, arith, ◌==◌, Bool-cases,
}
use guangyang.Prelude.Int.{ℤ, pos, negsuc}
use guangyang.Text.{Str, codes, is_blank}
use guangyang.Float.Error.{math_round-hundredths}
use guangyang.Domain.{
  CompareJob, Time, ready, cancelled, is_cancelled, has_result, yuan_of_fen, fen_of_yuan,
}
use guangyang.Effects.{ret, found}
use guangyang.Paygate.{await_payment}
use guangyang.Compare.Service.{cancel_job}
use guangyang.Wechat.Notify.{
  confirm_payment, check_amount, confirm, answer_fail, expected_fen, is_amount,
}

-- An amount of at most 2^50 fen, written in yuan as float64(fen)/100.0, is read back by
-- int64(math.Round(yuan*100)) as it was, although its hundredths need not be exact.
pub fen_of_yuan-yuan_of_fen : (fen : ℕ) → fen ≤ 2 ^ 50 → fen_of_yuan (yuan_of_fen fen) ≡ fen
unfolding yuan_of_fen fen_of_yuan
fen_of_yuan-yuan_of_fen fen small = math_round-hundredths fen small

-- The amount that the gate writes as float64(fee)/100.0 is read back, by rounding, as the fee.
expected_fen-await_payment :
    (oss_key url : Str) (fee : ℕ) (j : CompareJob)
    → 0 < fee
    → fee ≤ 2 ^ 50
    → j.paid ≡ false
    → is_cancelled j.status ≡ false
    → expected_fen (await_payment oss_key fee url j) ≡ fee
unfolding expected_fen await_payment
expected_fen-await_payment oss_key url fee j pos_fee small unpaid uncancelled =
    rw (uncancelled, unpaid, fen_of_yuan-yuan_of_fen fee small) (ground arith)

is_amount_only : (n : ℕ) (total : ℤ) → total ≢ pos n → is_amount n total ≡ false
unfolding is_amount
is_amount_only n (pos m) other = elim (Bool-cases (m == n)) [
  | inl same ↦ let e : m ≡ n = ground arith in absurd (other (ap pos e))
  | inr apart ↦ apart
]
is_amount_only n (negsuc m) other = refl

-- The gate asks for the fee of an open job, which is above 0 and at most 2^50 fen, as a float64 in yuan.
-- The notification accepts just this fee: of any other total, negative ones too, it answers "amount
-- mismatch" and writes nothing.
pub check_amount-await_payment :
    (job_id oss_key url : Str) (fee : ℕ) (j : CompareJob)
    → 0 < fee
    → fee ≤ 2 ^ 50
    → j.paid ≡ false
    → is_cancelled j.status ≡ false
    → (check_amount job_id (pos fee) (found (await_payment oss_key fee url j)) ≡ confirm job_id)
      × ((total : ℤ)
          → total ≢ pos fee
          → check_amount job_id total (found (await_payment oss_key fee url j))
            ≡ ret (answer_fail 400 (codes "amount mismatch")))
unfolding check_amount is_amount
check_amount-await_payment job_id oss_key url fee j pos_fee small unpaid uncancelled =
    let expected = expected_fen-await_payment oss_key url fee j pos_fee small unpaid uncancelled in
    (rw expected (ground arith), λ total other. rw (expected, is_amount_only fee total other) refl)

-- A notification of payment after the gate has asked for it releases the job: it is ready, paid at that
-- time, and has its result.
pub confirm_payment-await_payment :
    (t : Time) (oss_key url : Str) (fee : ℕ) (j : CompareJob)
    → is_blank oss_key ≡ false
    → j.paid ≡ false
    → is_cancelled j.status ≡ false
    → let k = confirm_payment t (await_payment oss_key fee url j) in
      (k.status ≡ ready) × (k.paid ≡ true) × (k.paid_at ≡ some t) × (has_result k ≡ true)
unfolding confirm_payment await_payment has_result
confirm_payment-await_payment t oss_key url fee j key unpaid uncancelled = ground arith

-- A second notification changes nothing: not even the date of the payment.
confirm_payment-confirm_payment :
    (t u : Time) (j : CompareJob) → confirm_payment u (confirm_payment t j) ≡ confirm_payment t j
unfolding confirm_payment
confirm_payment-confirm_payment t u j = ground arith

-- A cancellation after a notification of payment changes nothing.
pub cancel_job-confirm_payment :
    (t u : Time) (j : CompareJob) → cancel_job u (confirm_payment t j) ≡ confirm_payment t j
unfolding confirm_payment cancel_job
cancel_job-confirm_payment t u j = ground arith

-- A notification after the cancellation of an unpaid job records the payment, and the job stays
-- cancelled.
confirm_payment-cancel_job :
    (t u : Time) (j : CompareJob)
    → j.paid ≡ false
    → let k = confirm_payment t (cancel_job u j) in
      (k.status ≡ cancelled) × (k.paid ≡ true) × (k.paid_at ≡ some t)
unfolding confirm_payment cancel_job
confirm_payment-cancel_job t u j unpaid = ground arith
