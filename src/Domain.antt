-- ===== src/Domain.antt =====
-- The job record of gobackend/domain/compare_job.go.
use guangyang.Prelude.{ℕ, Bool, true, false, ◌||◌, not, Option}
use guangyang.Float.{Float, of_int, quotient, product, math_round}
use guangyang.Text.{Str, is_blank}

pub data CompareJobStatus : Type 0 where
  processing awaiting_payment ready failed cancelled : CompareJobStatus

-- The comparisons `status == domain.CompareJobStatusX`, one for each status.
abbrev pub is_processing : CompareJobStatus → Bool
is_processing processing = true
is_processing _ = false

abbrev pub is_awaiting : CompareJobStatus → Bool
is_awaiting awaiting_payment = true
is_awaiting _ = false

abbrev pub is_ready : CompareJobStatus → Bool
is_ready ready = true
is_ready _ = false

abbrev pub is_failed : CompareJobStatus → Bool
is_failed failed = true
is_failed _ = false

abbrev pub is_cancelled : CompareJobStatus → Bool
is_cancelled cancelled = true
is_cancelled _ = false

-- A point of time, in nanoseconds.
abbrev pub Time : Type 0
Time = ℕ

-- An amount in yuan, a float64.
abbrev pub Yuan : Type 0
Yuan = Float

-- float64(feeFen) / 100.0
unfoldable pub yuan_of_fen : ℕ → Yuan
unfolding of_int quotient
yuan_of_fen fee = quotient (of_int fee) 100

-- int64(math.Round(job.AmountYuan * 100))
unfoldable pub fen_of_yuan : Yuan → ℕ
unfolding product math_round
fen_of_yuan y = math_round (product y 100)

pub record CompareJob : Type 0 where
  pub id : Str
  pub status : CompareJobStatus
  pub created_at : Time
  pub file1_path : Str
  pub file2_path : Str
  pub file1_oss_key : Str
  pub file2_oss_key : Str
  pub file1_name : Str
  pub file2_name : Str
  pub result_path : Str
  pub result_oss_key : Str
  pub amount_yuan : Yuan
  pub code_url : Str
  pub paid : Bool
  pub paid_at : Option Time
  pub cancelled_at : Option Time
  pub error : Str

-- hasResult of compare/service.go, and its copy in wechat/notify.go.
unfoldable pub has_result : CompareJob → Bool
has_result j = not (is_blank j.result_oss_key) || not (is_blank j.result_path)
