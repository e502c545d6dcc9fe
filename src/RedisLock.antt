-- ===== src/RedisLock.antt =====
-- gobackend/redislock/redislock.go: the key of a lock, and the way in which both workers hold one.
pub mod Scripts
pub mod Calls
pub mod Exclusion
use guangyang.Prelude.{Bool, true, false, ◌++◌, Option, none, some, if◌then◌else◌}
use guangyang.Text.{Str, codes, trim_space, is_blank}
use guangyang.Errors.{GoError, new, to_terminal, Result, ok, err}
use guangyang.Effects.{Prog, ret, ◌>>=◌, ◌>>◌, perform, new_token, acquire, release}

pub record Client : Type 0 where
  pub prefix : Str

-- New
unfoldable pub new_client : Str → Client
new_client prefix = record { prefix = trim_space prefix }

-- Client.Key
unfoldable pub key : Client → Str → Str
key c job_id =
    (if is_blank c.prefix then codes "gy:lock:comparejob:" else trim_space c.prefix)
    ++ trim_space job_id

-- The body under the lock, and the deferred Release.
unfoldable pub locked : Str → Str → Prog (Option GoError) → Prog (Option GoError)
locked lock_key token body = do result ← body; perform (release lock_key token); ret result

unfoldable pub acquired :
    Str → Str → Str → Prog (Option GoError) → Result Bool → Prog (Option GoError)
acquired busy lock_key token body (err e) = ret (some e)
acquired busy lock_key token body (ok false) = ret (to_terminal (some (new (busy ++ lock_key))))
acquired busy lock_key token body (ok true) = locked lock_key token body

unfoldable pub with_token : Str → Str → Prog (Option GoError) → Result Str → Prog (Option GoError)
with_token busy lock_key body (err e) = ret (some e)
with_token busy lock_key body (ok token) = do
  r ← perform (acquire lock_key token)
  acquired busy lock_key token body r

-- The lock of `Process` in both workers: no client, no lock. The ticker that refreshes the lock runs
-- beside the body and touches no job.
unfoldable pub with_lock : Option Client → Str → Str → Prog (Option GoError) → Prog (Option GoError)
unfolding with_token acquired locked
with_lock none busy name body = body
with_lock (some c) busy name body = do t ← perform new_token; with_token busy (key c name) body t
