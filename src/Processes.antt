-- ===== src/Processes.antt =====
-- The three processes: gobackend/main.go, gobackend/cmd/compare-worker/main.go and
-- gobackend/cmd/payment-worker/main.go, up to the point where they serve or consume. A process that
-- ends by log.Fatalf gives the text as an error.
pub mod Queues
use guangyang.Prelude.{
  ℕ, zero, suc, Bool, true, false, List, [], ◌∷◌, ◌++◌, Option, none, some, if◌then◌else◌, String,
}
use guangyang.Prelude.Int.{ℤ, pos, negsuc}
use guangyang.Text.{Str, codes, ◌===◌, trim_space, is_blank}
use guangyang.Text.Decimal.{parse_int}
use guangyang.Errors.{GoError, new, message, Result, ok, err}
use guangyang.Config.{read_int_default}
use guangyang.Streamq.{
  StreamQueue, new_queue, ensure_group, Consumer, new_consumer, set_concurrency,
}
use guangyang.RedisLock.{Client, new_client}
use guangyang.Http.{Method, options}

-- What the outside answers while a process starts: the store's ping of Redis, the group's creation and
-- whether its error says that the group is there, NewFromEnv (none if it is not asked for) and the name
-- for a consumer that has none.
pub record Outside (OssStore : Type 0) : Type 0 where
  pub env : Str → Str
  pub redis_store : Str → Str → Option GoError
  pub create_group : Str → Str → Option GoError
  pub busy : GoError → Bool
  pub oss_from_env : Option (Result OssStore)
  pub generated : Str

-- readEnvDefault
unfoldable pub read_env_default : Str → Str → Str
unfolding trim_space ◌===◌
read_env_default raw default = let v = trim_space raw in if v === [] then default else v

abbrev not_negative_or : ℕ → Option ℤ → ℕ
not_negative_or default (some (pos n)) = n
not_negative_or default (some (negsuc n)) = default
not_negative_or default none = default

-- readEnvIntDefault of the workers, where zero is a setting.
unfoldable pub read_env_int_default : ℕ → Str → ℕ
unfolding parse_int is_blank trim_space
read_env_int_default default raw =
    if is_blank raw then default else not_negative_or default (parse_int (trim_space raw))

-- `log.Fatalf(text + ": %v", err)`
abbrev fatal : {A : Type 0} → String → GoError → Result A
fatal text e = err (new (codes text ++ codes ": " ++ message e))

infixl 5 ◌>>=◌ ◌>>◌
abbrev pub ◌>>=◌ : {A B : Type 0} → Result A → (A → Result B) → Result B
ok a >>= f = f a
err e >>= f = err e

abbrev pub ◌>>◌ : {B : Type 0} → Result (Unit {0}) → Result B → Result B
m >> k = m >>= λ _. k

abbrev unless_failed : String → Option GoError → Result (Unit {0})
unless_failed text none = ok tt
unless_failed text (some e) = fatal text e

-- A process that is ready to run, with the address and the database of its Redis.
pub record Server (OssStore : Type 0) : Type 0 where
  pub tmp_root : Str
  pub oss : Option OssStore
  pub redis : Str × ℕ
  pub queue : StreamQueue
  pub address : Str

pub record CompareProcess (OssStore : Type 0) : Type 0 where
  pub tmp_root : Str
  pub oss : OssStore
  pub redis : Str × ℕ
  pub pay_queue : StreamQueue
  pub lock : Client
  pub consumer : Consumer
  pub metrics : Str

pub record PayProcess : Type 0 where
  pub redis : Str × ℕ
  pub lock : Client
  pub consumer : Consumer
  pub metrics : Str

module _ {OssStore : Type 0} (out : Outside OssStore) where
  abbrev pub setting : String → String → Str
  setting name default = read_env_default (out.env (codes name)) (codes default)

  abbrev pub redis_addr : Str
  redis_addr = trim_space (out.env (codes "REDIS_ADDR"))

  -- The address of Redis, and the job store on it.
  unfoldable pub connect : String → Result (Unit {0})
  unfolding trim_space ◌===◌
  connect no_address =
      if redis_addr === []
      then err (new (codes no_address))
      else unless_failed "init redis store failed"
          (out.redis_store redis_addr (out.env (codes "REDIS_PASSWORD")))

  -- The queue of the compare stream, with the limit of its length.
  unfoldable pub compare_queue : ℕ → StreamQueue
  unfolding new_queue read_env_default
  compare_queue max_len =
      new_queue true (setting "COMPARE_STREAM_KEY" "gy:comparejobs:stream")
        (setting "COMPARE_STREAM_GROUP" "gy-compare") (pos max_len)

  unfoldable pub pay_queue : StreamQueue
  unfolding new_queue read_env_default read_env_int_default
  pay_queue =
      new_queue true (setting "COMPARE_PAYGATE_STREAM_KEY" "gy:comparejobs:paygate")
        (setting "COMPARE_PAYGATE_STREAM_GROUP" "gy-paygate")
        (pos (read_env_int_default 100_000 (out.env (codes "COMPARE_PAYGATE_STREAM_MAXLEN"))))

  abbrev pub optional_oss : Option (Result OssStore) → Result (Option OssStore)
  optional_oss none = ok none
  optional_oss (some (ok s)) = ok (some s)
  optional_oss (some (err e)) = fatal "init oss store failed" e

  abbrev pub needed_oss : Option (Result OssStore) → Result OssStore
  needed_oss none = err (new (codes "OSS 未启用：worker 无法处理输入/输出文件"))
  needed_oss (some (ok s)) = ok s
  needed_oss (some (err e)) = fatal "init oss store failed" e

  abbrev consumer_name : Str
  consumer_name =
      let name = trim_space (out.env (codes "WORKER_CONSUMER_NAME")) in
      if name === [] then trim_space (out.env (codes "HOSTNAME")) else name

  -- The consumer of a queue's stream and group, with the slots that are set.
  unfoldable pub consumer_of : Str → Str → ℕ → Consumer
  unfolding new_consumer set_concurrency read_env_int_default trim_space ◌===◌
  consumer_of stream group slots =
      set_concurrency (pos (read_env_int_default slots (out.env (codes "STREAM_CONCURRENCY"))))
        (new_consumer true stream group consumer_name out.generated)

  unfoldable pub ready_server : Option OssStore → Result (Server OssStore)
  unfolding compare_queue read_env_default read_int_default
  ready_server oss = ok (record {
    tmp_root = setting "TMP_ROOT" "./tmp";
    oss = oss;
    redis = (redis_addr, read_int_default 0 (out.env (codes "REDIS_DB")));
    queue = compare_queue (read_int_default 100_000 (out.env (codes "COMPARE_STREAM_MAXLEN")));
    address = codes ":" ++ setting "PORT" "8080";
  })

  -- main of gobackend/main.go
  unfoldable pub start_server : Result (Server OssStore)
  unfolding connect ready_server
  start_server = do
    connect "REDIS_ADDR 为空：Streams 队列模式必须启用 Redis"
    oss ← optional_oss out.oss_from_env
    ready_server oss

  -- The consumer's group is made on the stream of its queue.
  unfoldable pub make_group : StreamQueue → Result (Unit {0})
  unfolding ensure_group
  make_group q =
      unless_failed "ensure stream group failed" (ensure_group out.create_group out.busy q)

  abbrev pub worked_queue : StreamQueue
  worked_queue =
      compare_queue (read_env_int_default 100_000 (out.env (codes "COMPARE_STREAM_MAXLEN")))

  abbrev pub worker_redis : Str × ℕ
  worker_redis = (redis_addr, read_env_int_default 0 (out.env (codes "REDIS_DB")))

  unfoldable pub ready_compare_worker : OssStore → Result (CompareProcess OssStore)
  unfolding pay_queue consumer_of new_client read_env_default read_env_int_default
  ready_compare_worker oss = ok (record {
    tmp_root = setting "TMP_ROOT" "./tmp";
    oss = oss;
    redis = worker_redis;
    pay_queue = pay_queue;
    lock = new_client (setting "COMPARE_JOB_LOCK_PREFIX" "gy:lock:comparejob:");
    consumer =
        consumer_of (setting "COMPARE_STREAM_KEY" "gy:comparejobs:stream")
          (setting "COMPARE_STREAM_GROUP" "gy-compare") 4;
    metrics = setting "METRICS_ADDR" ":9090";
  })

  -- main of gobackend/cmd/compare-worker
  unfoldable pub start_compare_worker : Result (CompareProcess OssStore)
  unfolding connect make_group compare_queue ready_compare_worker read_env_int_default
  start_compare_worker = do
    connect "REDIS_ADDR 为空"
    oss ← needed_oss out.oss_from_env
    make_group worked_queue
    ready_compare_worker oss

  unfoldable pub ready_payment_worker : Result PayProcess
  unfolding consumer_of new_client read_env_default read_env_int_default
  ready_payment_worker = ok (record {
    redis = worker_redis;
    lock = new_client (setting "COMPARE_PAYGATE_LOCK_PREFIX" "gy:lock:comparejob:");
    consumer =
        consumer_of (setting "COMPARE_PAYGATE_STREAM_KEY" "gy:comparejobs:paygate")
          (setting "COMPARE_PAYGATE_STREAM_GROUP" "gy-paygate") 8;
    metrics = setting "METRICS_ADDR" ":9090";
  })

  -- main of gobackend/cmd/payment-worker
  unfoldable pub start_payment_worker : Result PayProcess
  unfolding connect pay_queue make_group ready_payment_worker
  start_payment_worker = do connect "REDIS_ADDR 为空"; make_group pay_queue; ready_payment_worker

-- corsMiddleware: the fields that every response gets, and whether the request goes on.
unfoldable pub cors_headers : Str → List (Str × Str)
unfolding read_env_default
cors_headers raw =
    (codes "Access-Control-Allow-Origin", read_env_default raw (codes "http://localhost:5173"))
    ∷ (codes "Access-Control-Allow-Credentials", codes "true")
    ∷ (codes "Access-Control-Allow-Headers", codes "Content-Type, Authorization")
    ∷ (codes "Access-Control-Allow-Methods", codes "GET,POST,OPTIONS")
    ∷ []

unfoldable pub cors_passes : Method → Bool
cors_passes options = false
cors_passes _ = true
