-- ===== src/Processes/Queues.antt =====
-- The processes find one another's work.
use guangyang.Prelude.{◌≡◌, refl, Option, none, some, sym, subst, ◌∙◌, ℕ, zero, suc, true, arith}
use guangyang.Prelude.Int.{ℤ, pos, negsuc}
use guangyang.Text.{Str, codes, trim_space}
use guangyang.Text.Decimal.{parse_int}
use guangyang.Config.{read_int_default}
use guangyang.Errors.{Result, ok, err}
use guangyang.Streamq.{StreamQueue, Consumer, new_queue, new_consumer, set_concurrency}
use guangyang.Processes.{
  Outside, Server, CompareProcess, PayProcess, ◌>>=◌, read_env_default, compare_queue, pay_queue,
  setting, redis_addr, worker_redis, consumer_of, consumer_name, connect, read_env_int_default,
  optional_oss, needed_oss, worked_queue, make_group, ready_server, ready_compare_worker,
  ready_payment_worker, start_server, start_compare_worker, start_payment_worker,
}

-- What a result holds, if it is none of an error.
abbrev Ensures : {A : Type 0} → (A → Type 0) → Result A → Type 0
Ensures P (ok a) = P a
Ensures P (err e) = Unit {0}

>>=-Ensures :
    {A B : Type 0} (P : B → Type 0) (m : Result A) (f : A → Result B)
    → ((a : A) → Ensures P (f a))
    → Ensures P (m >>= f)
>>=-Ensures P (ok a) f h = h a
>>=-Ensures P (err e) f h = tt

ensured : {A : Type 0} (P : A → Type 0) (r : Result A) (a : A) → r ≡ ok a → Ensures P r → P a
ensured P r a e h = subst (Ensures P) e h

-- A stream and its group.
abbrev pub Pair : Type 0
Pair = Str × Str

abbrev pub of_queue : StreamQueue → Pair
of_queue q = (q.stream, q.group)

abbrev pub of_consumer : Consumer → Pair
of_consumer c = (c.stream, c.group)

set_concurrency-of_consumer :
    (n : ℤ) (c : Consumer) → of_consumer (set_concurrency n c) ≡ of_consumer c
unfolding set_concurrency
set_concurrency-of_consumer (pos zero) c = refl
set_concurrency-of_consumer (pos (suc zero)) c = refl
set_concurrency-of_consumer (pos (suc (suc n))) c = refl
set_concurrency-of_consumer (negsuc n) c = refl

or_default_same :
    (o : Option ℤ) (raw : Str)
    → parse_int (trim_space raw) ≡ o
    → read_int_default 0 raw ≡ read_env_int_default 0 raw
unfolding read_int_default read_env_int_default
or_default_same none raw e = ground arith
or_default_same (some (pos zero)) raw e = ground arith
or_default_same (some (pos (suc n))) raw e = ground arith
or_default_same (some (negsuc n)) raw e = ground arith

-- The server and the workers read a number of a database alike.
same_db : (raw : Str) → read_int_default 0 raw ≡ read_env_int_default 0 raw
same_db raw = or_default_same (parse_int (trim_space raw)) raw refl

module _ {OssStore : Type 0} (out : Outside OssStore) where
  -- A setting of the stream, or its default, as Redis gets it.
  abbrev named : Str → Str → Str
  named name default = trim_space (read_env_default (out.env name) default)

  abbrev compare_names : Pair
  compare_names = (
    named (codes "COMPARE_STREAM_KEY") (codes "gy:comparejobs:stream"),
    named (codes "COMPARE_STREAM_GROUP") (codes "gy-compare"),
  )

  abbrev pay_names : Pair
  pay_names = (
    named (codes "COMPARE_PAYGATE_STREAM_KEY") (codes "gy:comparejobs:paygate"),
    named (codes "COMPARE_PAYGATE_STREAM_GROUP") (codes "gy-paygate"),
  )

  consumer_of-names :
      (stream group : Str) (n : ℕ)
      → of_consumer (consumer_of out stream group n) ≡ (trim_space stream, trim_space group)
  unfolding consumer_of new_consumer
  consumer_of-names stream group n =
      set_concurrency-of_consumer
        (pos (read_env_int_default n (out.env (codes "STREAM_CONCURRENCY"))))
        (new_consumer true stream group (consumer_name out) out.generated)

  abbrev server_redis : Str × ℕ
  server_redis = (redis_addr out, read_int_default 0 (out.env (codes "REDIS_DB")))

  server_names :
      Ensures
        (λ s. (of_queue s.queue ≡ compare_names) × (s.redis ≡ server_redis))
        (start_server out)
  unfolding start_server ready_server compare_queue new_queue
  server_names =
      >>=-Ensures _ (connect out "REDIS_ADDR 为空：Streams 队列模式必须启用 Redis")
        (λ _. optional_oss out out.oss_from_env >>= ready_server out)
        λ _.
          >>=-Ensures _ (optional_oss out out.oss_from_env) (ready_server out) λ oss. (refl, refl)

  compare_process_names :
      Ensures
        (λ c.
          (of_consumer c.consumer ≡ compare_names)
          × (of_queue c.pay_queue ≡ pay_names)
          × (c.redis ≡ worker_redis out))
        (start_compare_worker out)
  unfolding start_compare_worker ready_compare_worker pay_queue new_queue
  compare_process_names =
      >>=-Ensures _ (connect out "REDIS_ADDR 为空")
        (λ _. needed_oss out out.oss_from_env >>= λ oss.
          make_group out (worked_queue out) >>= λ _. ready_compare_worker out oss)
        λ _.
          >>=-Ensures _ (needed_oss out out.oss_from_env)
            (λ oss. make_group out (worked_queue out) >>= λ _. ready_compare_worker out oss)
            λ oss.
              >>=-Ensures _ (make_group out (worked_queue out)) (λ _. ready_compare_worker out oss)
                λ _. (
                  consumer_of-names (setting out "COMPARE_STREAM_KEY" "gy:comparejobs:stream")
                      (setting out "COMPARE_STREAM_GROUP" "gy-compare") 4,
                  refl,
                  refl,
                )

  pay_process_names :
      Ensures
        (λ p. (of_consumer p.consumer ≡ pay_names) × (p.redis ≡ worker_redis out))
        (start_payment_worker out)
  unfolding start_payment_worker ready_payment_worker
  pay_process_names =
      >>=-Ensures _ (connect out "REDIS_ADDR 为空")
        (λ _. make_group out (pay_queue out) >>= λ _. ready_payment_worker out)
        λ _.
          >>=-Ensures _ (make_group out (pay_queue out)) (λ _. ready_payment_worker out)
            λ _. (
              consumer_of-names (setting out "COMPARE_PAYGATE_STREAM_KEY" "gy:comparejobs:paygate")
                  (setting out "COMPARE_PAYGATE_STREAM_GROUP" "gy-paygate") 8,
              refl,
            )

module _ {OssStore : Type 0} (a b c : Outside OssStore) where
  -- The environments agree on Redis and on the names of the two streams and of their groups.
  pub record AgreeOnStreams : Type 0 where
    pub address : a.env (codes "REDIS_ADDR") ≡ b.env (codes "REDIS_ADDR")
    pub database : a.env (codes "REDIS_DB") ≡ b.env (codes "REDIS_DB")
    pub pay_address : b.env (codes "REDIS_ADDR") ≡ c.env (codes "REDIS_ADDR")
    pub pay_database : b.env (codes "REDIS_DB") ≡ c.env (codes "REDIS_DB")
    pub key : a.env (codes "COMPARE_STREAM_KEY") ≡ b.env (codes "COMPARE_STREAM_KEY")
    pub group : a.env (codes "COMPARE_STREAM_GROUP") ≡ b.env (codes "COMPARE_STREAM_GROUP")
    pub pay_key :
        b.env (codes "COMPARE_PAYGATE_STREAM_KEY") ≡ c.env (codes "COMPARE_PAYGATE_STREAM_KEY")
    pub pay_group :
        b.env (codes "COMPARE_PAYGATE_STREAM_GROUP") ≡ c.env (codes "COMPARE_PAYGATE_STREAM_GROUP")

  -- If the environments of a server, a compare worker and a payment worker that have started agree on
  -- the address and the database of Redis and on the names of the streams and groups, whatever else they
  -- hold, then the three use the same Redis, the compare worker consumes the stream and group of the
  -- server's queue, and the payment worker those of the compare worker's.
  pub start-linked :
      (s : Server OssStore) (w : CompareProcess OssStore) (p : PayProcess)
      → AgreeOnStreams
      → start_server a ≡ ok s
      → start_compare_worker b ≡ ok w
      → start_payment_worker c ≡ ok p
      → (s.redis ≡ w.redis)
        × (w.redis ≡ p.redis)
        × (of_queue s.queue ≡ of_consumer w.consumer)
        × (of_queue w.pay_queue ≡ of_consumer p.consumer)
  start-linked s w p agree hs hw hp =
      let (es, rs) =
        ensured
          (λ (t : Server OssStore).
            (of_queue t.queue ≡ compare_names a) × (t.redis ≡ server_redis a))
          (start_server a) s hs (server_names a) in
      let (ew, ev, rw') =
        ensured
          (λ (t : CompareProcess OssStore).
            (of_consumer t.consumer ≡ compare_names b)
            × (of_queue t.pay_queue ≡ pay_names b)
            × (t.redis ≡ worker_redis b))
          (start_compare_worker b) w hw (compare_process_names b) in
      let (ep, rp) =
        ensured
          (λ (t : PayProcess). (of_consumer t.consumer ≡ pay_names c) × (t.redis ≡ worker_redis c))
          (start_payment_worker c) p hp (pay_process_names c) in
      let same : compare_names a ≡ compare_names b = rw (agree.key, agree.group) in
      let same_pay : pay_names b ≡ pay_names c = rw (agree.pay_key, agree.pay_group) in
      let one : server_redis a ≡ worker_redis b =
        rw (agree.address, agree.database, same_db (b.env (codes "REDIS_DB"))) in
      let two : worker_redis b ≡ worker_redis c = rw (agree.pay_address, agree.pay_database) in
      (rs ∙ one ∙ sym rw', rw' ∙ two ∙ sym rp, es ∙ same ∙ sym ew, ev ∙ same_pay ∙ sym ep)
