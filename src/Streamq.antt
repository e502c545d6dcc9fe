-- ===== src/Streamq.antt =====
-- The queue on a Redis stream, gobackend/streamq/streamq.go: what the producer sends, what the
-- consumer does with a message, and its loop. Durations are in nanoseconds.
pub mod Loop
pub mod Delivery
pub mod Acks
pub mod Final
use guangyang.Prelude.{
  ℕ, zero, suc, ◌+◌, ◌*◌, Bool, true, false, not, ◌||◌, ◌&&◌, List, [], ◌∷◌, ◌++◌, Option, none,
  some, ltb, ◌==◌, if◌then◌else◌,
}
use guangyang.Prelude.Int.{ℤ, pos, negsuc}
use guangyang.Text.{Str, codes, trim_space, is_blank}
use guangyang.Errors.{GoError, new, to_terminal, is_terminal, Result, ok, err}
use guangyang.Config.{second}
use guangyang.Domain.{Time}
use guangyang.Excel.StrMap.{StrMap, lookup}

-- redis.XMessage; Redis gives texts as values.
pub record Message : Type 0 where
  pub id : Str
  pub values : StrMap Str

-- RedisStreamQueue
pub record StreamQueue : Type 0 where
  pub connected : Bool  -- q != nil && q.rdb != nil
  pub stream : Str
  pub group : Str
  pub max_len : ℕ

abbrev pub positive_or : ℕ → ℤ → ℕ
positive_or default (pos (suc n)) = suc n
positive_or default _ = default

-- NewRedisStreamQueue
unfoldable pub new_queue : Bool → Str → Str → ℤ → StreamQueue
new_queue connected stream group max_len = record {
  connected = connected;
  stream = trim_space stream;
  group = trim_space group;
  max_len = positive_or 100_000 max_len;
}

-- redis.XAddArgs; the length is approximate.
pub record XAddArgs : Type 0 where
  pub stream : Str
  pub max_len : ℕ
  pub values : StrMap Str

abbrev pub queue_not_initialised : GoError
queue_not_initialised = new (codes "redis stream queue 未初始化")

-- RedisStreamQueue.Enqueue up to the call of XADD, whose error it returns.
unfoldable pub enqueue : StreamQueue → Str → Result XAddArgs
enqueue q job_id =
    if not q.connected
    then err queue_not_initialised
    else if is_blank job_id
    then err (new (codes "jobID 为空"))
    else if is_blank q.stream
    then err (new (codes "stream key 为空"))
    else ok (record {
      stream = trim_space q.stream;
      max_len = q.max_len;
      values = (codes "jobId", trim_space job_id) ∷ [];
    })

-- RedisStreamQueue.EnsureGroup: `create` is XGroupCreateMkStream from "0", and `busy` says that an
-- error's text in lower case has "busygroup" in it.
unfoldable pub ensure_group :
    (create : Str → Str → Option GoError) (busy : GoError → Bool) → StreamQueue → Option GoError
ensure_group create busy q =
    if not q.connected
    then some queue_not_initialised
    else if is_blank q.stream || is_blank q.group
    then some (new (codes "stream/group 为空"))
    else elim (create (trim_space q.stream) (trim_space q.group)) [
      | none ↦ none
      | some e ↦ if busy e then none else some e
    ]

-- Consumer; no slots of `concur` is a nil channel. The time of the last claim may be the zero time.
pub record Consumer : Type 0 where
  pub connected : Bool  -- c != nil && c.rdb != nil
  pub stream : Str
  pub group : Str
  pub consumer : Str
  pub block : ℕ
  pub count : ℕ
  pub concur : Option ℕ
  pub claim_min_idle : ℕ
  pub claim_count : ℕ
  pub claim_start : Str
  pub claim_every : ℕ
  pub last_claimed_time : Option Time

-- NewConsumer; `generated` is "c-" with the time.
unfoldable pub new_consumer : Bool → Str → Str → Str → Str → Consumer
new_consumer connected stream group consumer generated = record {
  connected = connected;
  stream = trim_space stream;
  group = trim_space group;
  consumer = if is_blank consumer then generated else trim_space consumer;
  block = 10 * second;
  count = 10;
  concur = none;
  claim_min_idle = 30 * second;
  claim_count = 50;
  claim_start = codes "0-0";
  claim_every = 3 * second;
  last_claimed_time = none;
}

-- Consumer.SetConcurrency
unfoldable pub set_concurrency : ℤ → Consumer → Consumer
set_concurrency (pos (suc (suc n))) c = record c { concur = some (suc (suc n)) }
set_concurrency _ c = record c { concur = none }

-- What a handler does: it returns an error that may be nil, or it panics.
pub data Outcome : Type 0 where
  returned : Option GoError → Outcome
  panicked : Str → Outcome

-- The variable `err` after the call; a panic is a terminal error.
unfoldable pub result_of : Outcome → Option GoError
result_of (returned e) = e
result_of (panicked text) = to_terminal (some (new (codes "panic: " ++ text)))

-- `err == nil || IsTerminal(err)`
unfoldable pub settles : Option GoError → Bool
unfolding is_terminal
settles none = true
settles (some e) = is_terminal e

-- Consumer.ack: whether XACK is sent.
unfoldable pub ack : Str → Bool
ack id = not (is_blank id)

-- What `handleOne` does with a message: the handler call, if any, and whether it sends XACK, whose
-- error it drops.
pub record Handling : Type 0 where
  pub called : Option Str
  pub acked : Bool

-- The argument of the handler, if the message has one.
unfoldable pub job_of : Message → Option Str
job_of m = elim (lookup (codes "jobId") m.values) [
  | none ↦ none
  | some v ↦ if is_blank v then none else some (trim_space v)
]

-- The rest of `handleOne`, which has the message's id, and the argument.
unfoldable pub handle_job : (Str → Outcome) → Str → Option Str → Handling
unfolding ack settles result_of
handle_job handler id none = record { called = none; acked = ack id }
handle_job handler id (some jid) = record {
  called = some jid;
  acked = settles (result_of (handler jid)) && ack id;
}

-- Consumer.handleOne
unfoldable pub handle_one : (Str → Outcome) → Message → Handling
unfolding handle_job
handle_one handler m = handle_job handler m.id (job_of m)
