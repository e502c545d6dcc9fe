-- ===== src/Lifecycle/Locks.antt =====
-- A body that is safe is safe under a lock.
use guangyang.Prelude.{Bool, true, false, Option, none, some}
use guangyang.Text.{Str}
use guangyang.Errors.{GoError, Result, ok, err}
use guangyang.Effects.{Prog, ◌>>=◌}
use guangyang.RedisLock.{Client, with_lock, with_token, acquired, locked}
use guangyang.Lifecycle.Safe.{Seen, IsSafe, Any, IsSafe-ret, IsSafe-call, IsSafe-bind}

module _ (p : Seen) (body : Prog (Option GoError)) (safe : IsSafe Any p body) where
  locked-IsSafe : (k t : Str) → IsSafe Any p (locked k t body)
  unfolding locked
  locked-IsSafe k t = IsSafe-bind safe (λ p' a _. unfold ◌>>=◌ in IsSafe-call (λ r. IsSafe-ret tt))

  acquired-IsSafe : (busy k t : Str) (r : Result Bool) → IsSafe Any p (acquired busy k t body r)
  unfolding acquired
  acquired-IsSafe busy k t (err e) = IsSafe-ret tt
  acquired-IsSafe busy k t (ok false) = IsSafe-ret tt
  acquired-IsSafe busy k t (ok true) = locked-IsSafe k t

  with_token-IsSafe : (busy k : Str) (r : Result Str) → IsSafe Any p (with_token busy k body r)
  unfolding with_token ◌>>=◌
  with_token-IsSafe busy k (err e) = IsSafe-ret tt
  with_token-IsSafe busy k (ok t) = IsSafe-call (λ r. acquired-IsSafe busy k t r)

  pub with_lock-IsSafe :
      (c : Option Client) (busy name : Str) → IsSafe Any p (with_lock c busy name body)
  unfolding with_lock ◌>>=◌
  with_lock-IsSafe none busy name = safe
  with_lock-IsSafe (some c) busy name = IsSafe-call (λ t. with_token-IsSafe busy _ t)
