-- ===== src/Store.antt =====
-- The job store in Redis of gobackend/store/compare_job_store.go. What json makes of a record is a
-- parameter. Redis is the value under each key; what other clients and the network do to one call is
-- an argument of it.
pub mod Memory
pub mod Atomic
pub mod Agree
use guangyang.Prelude.{
  ℕ, zero, suc, ◌*◌, Bool, true, false, List, [], ◌∷◌, ◌++◌, Option, none, some, if◌then◌else◌,
}
use guangyang.Prelude.Int.{ℤ, pos, negsuc}
use guangyang.Text.{Str, codes, trim_space, is_blank}
use guangyang.Text.Decimal.{parse_int}
use guangyang.Config.{second, read_duration_default}
use guangyang.Domain.{CompareJob, CompareJobStatus, Time, Yuan}
use guangyang.Errors.{GoError, new}
use guangyang.Effects.{GetReply, get_failed, not_found, found}

-- compareJobRecord
pub record CompareJobRecord : Type 0 where
  pub id : Str
  pub status : CompareJobStatus
  pub created_at : Time
  pub file1_path : Str
  pub file2_path : Str
  pub file1_oss_key : Str
  pub file2_oss_key : Str
  pub file1_name : Str
  pub file2_name : Str
  pub result_path : Str
  pub result_oss_key : Str
  pub amount_yuan : Yuan
  pub code_url : Str
  pub paid : Bool
  pub paid_at : Option Time
  pub cancelled_at : Option Time
  pub error : Str

-- recordFromJob
unfoldable pub record_from_job : CompareJob → CompareJobRecord
record_from_job j = record {
  id = j.id;
  status = j.status;
  created_at = j.created_at;
  file1_path = j.file1_path;
  file2_path = j.file2_path;
  file1_oss_key = j.file1_oss_key;
  file2_oss_key = j.file2_oss_key;
  file1_name = j.file1_name;
  file2_name = j.file2_name;
  result_path = j.result_path;
  result_oss_key = j.result_oss_key;
  amount_yuan = j.amount_yuan;
  code_url = j.code_url;
  paid = j.paid;
  paid_at = j.paid_at;
  cancelled_at = j.cancelled_at;
  error = j.error;
}

-- jobFromRecord
unfoldable pub job_from_record : CompareJobRecord → CompareJob
job_from_record r = record {
  id = r.id;
  status = r.status;
  created_at = r.created_at;
  file1_path = r.file1_path;
  file2_path = r.file2_path;
  file1_oss_key = r.file1_oss_key;
  file2_oss_key = r.file2_oss_key;
  file1_name = r.file1_name;
  file2_name = r.file2_name;
  result_path = r.result_path;
  result_oss_key = r.result_oss_key;
  amount_yuan = r.amount_yuan;
  code_url = r.code_url;
  paid = r.paid;
  paid_at = r.paid_at;
  cancelled_at = r.cancelled_at;
  error = r.error;
}

-- readRedisDB
unfoldable db_or_zero : Option ℤ → ℕ
db_or_zero (some (pos n)) = n
db_or_zero _ = 0

unfoldable pub read_redis_db : Str → ℕ
unfolding db_or_zero
read_redis_db raw = if is_blank raw then 0 else db_or_zero (parse_int (trim_space raw))

-- readCompareJobTTL, in nanoseconds.
unfoldable pub read_compare_job_ttl : Str → ℤ
unfolding read_duration_default
read_compare_job_ttl raw = read_duration_default (pos (7 * 24 * 3600 * second)) raw

-- RedisCompareJobStore.key
unfoldable pub key : Str → Str
key id = codes "gy:comparejob:" ++ trim_space id

-- What Redis holds under one key.
abbrev pub Cell : Type 0
Cell = Option Str

-- What happens to one round of `Update` beside its own doing: the GET may fail; another client may
-- write or delete the key after the GET, and then EXEC fails; the reply of EXEC may be lost, after
-- or before it took effect.
pub data Round : Type 0 where
  quiet : Round
  get_fails : GoError → Round
  touched : Cell → Round
  exec_lost : GoError → Bool → Round

-- What a round comes to: it is over, or the watched key changed.
pub data Attempt : Type 0 where
  done : GetReply → Cell → Attempt
  tx_failed : Cell → Attempt

-- What the key holds after the round, if `Update` writes nothing.
abbrev pub left_by : Round → Cell → Cell
left_by quiet c = c
left_by (get_fails e) c = c
left_by (touched c') c = c'
left_by (exec_lost e applied) c = c

-- json.Marshal and json.Unmarshal of a record.
module _ (encode : CompareJobRecord → Str) (decode : Str → Option CompareJobRecord)
    (decode_error : GoError) where
  -- The text that a job is stored as.
  abbrev pub stored : CompareJob → Str
  stored j = encode (record_from_job j)

  decoded : Option CompareJobRecord → GetReply
  decoded none = get_failed decode_error
  decoded (some r) = found (job_from_record r)

  -- What GET and json make of a value.
  unfoldable pub read_cell : Cell → GetReply
  unfolding decoded
  read_cell none = not_found
  read_cell (some text) = decoded (decode text)

  -- RedisCompareJobStore.Create, with SETNX: a key that is there stays, and this is no error.
  unfoldable pub create : CompareJob → Cell → Option GoError × Cell
  create job (some text) =
      if is_blank job.id then (some (new (codes "job/id 为空")), some text) else (none, some text)
  create job none =
      if is_blank job.id then (some (new (codes "job/id 为空")), none) else (none, some (stored job))

  get_reply : Option GoError → Cell → GetReply
  unfolding read_cell
  get_reply (some e) c = get_failed e
  get_reply none c = read_cell c

  -- RedisCompareJobStore.Get; the argument `fault` is an error of the GET.
  unfoldable pub get : Str → Option GoError → Cell → GetReply
  unfolding get_reply
  get id fault c = if is_blank id then not_found else get_reply fault c

  module _ (fn : CompareJob → CompareJob) where
    -- EXEC, after the closure was applied to `j`.
    commit : Round → CompareJob → Cell → Attempt
    commit quiet j c = done (found (fn j)) (some (stored (fn j)))
    commit (get_fails e) j c = done (get_failed e) c
    commit (touched c') j c = tx_failed c'
    commit (exec_lost e applied) j c =
        done (get_failed e) (if applied then some (stored (fn j)) else c)

    -- Without a value nothing is written, so there is no EXEC to fail.
    after_get : Round → GetReply → Cell → Attempt
    unfolding commit
    after_get r (get_failed e) c = done (get_failed e) (left_by r c)
    after_get r not_found c = done not_found (left_by r c)
    after_get r (found j) c = commit r j c

    -- The function that `Watch` runs.
    unfoldable pub watch : Round → Cell → Attempt
    unfolding after_get read_cell
    watch (get_fails e) c = done (get_failed e) c
    watch r c = after_get r (read_cell c) c

    retry_exceeded : GetReply
    retry_exceeded = get_failed (new (codes "redis update retry exceeded"))

    -- The end of the loop, or one more round.
    unfoldable pub retried : Attempt → (Cell → GetReply × Cell) → GetReply × Cell
    retried (done reply c') again = (reply, c')
    retried (tx_failed c') again = again c'

    -- The loop, for the tries that are left; where the list of rounds ends, the others are quiet.
    unfoldable pub tries : ℕ → List Round → Cell → GetReply × Cell
    unfolding watch retry_exceeded retried
    tries zero rs c = (retry_exceeded, c)
    tries (suc n) [] c = retried (watch quiet c) (tries n [])
    tries (suc n) (r ∷ rs) c = retried (watch r c) (tries n rs)

    -- RedisCompareJobStore.Update
    unfoldable pub update : Str → List Round → Cell → GetReply × Cell
    unfolding tries
    update id rs c = if is_blank id then (not_found, c) else tries 8 rs c
