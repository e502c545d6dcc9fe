-- ===== src/RedisLock/Scripts.antt =====
-- Acquire, Refresh and Release of gobackend/redislock/redislock.go, and the two scripts that Redis
-- runs, over what Redis holds under the lock's key. Times are in nanoseconds; Redis counts whole
-- milliseconds, and the durations of the program are whole seconds.
use guangyang.Prelude.{
  ℕ, suc, ◌+◌, ◌*◌, ◌/◌, Bool, true, false, not, ◌||◌, Option, none, some, ltb, ◌==◌, if◌then◌else◌,
}
use guangyang.Prelude.Int.{ℤ, pos}
use guangyang.Text.{Str, codes, trim_space, is_blank, ◌===◌}
use guangyang.Errors.{GoError, new, Result, ok, err}
use guangyang.Config.{second}
use guangyang.Domain.{Time}

pub record Entry : Type 0 where
  pub token : Str
  pub expires : Time

abbrev pub Cell : Type 0
Cell = Option Entry

-- What Redis shows at a time: an entry is gone when it expires.
unfoldable pub live : Time → Cell → Cell
live now none = none
live now (some e) = if ltb now e.expires then some e else none

abbrev pub two_hours : ℕ
two_hours = 7200 * second

-- `if ttl <= 0 { ttl = 2 * time.Hour }`
unfoldable pub ttl_or_default : ℤ → ℕ
ttl_or_default (pos (suc n)) = suc n
ttl_or_default _ = two_hours

abbrev pub millisecond : ℕ
millisecond = 1_000_000

-- The milliseconds that Refresh hands to PEXPIRE.
unfoldable pub px : ℕ → ℕ
px ttl = if ttl / millisecond == 0 then two_hours / millisecond else ttl / millisecond

not_initialised : GoError
not_initialised = new (codes "redis lock 未初始化")

blank : GoError
blank = new (codes "lock key/token 为空")

-- What the three methods check first.
unfoldable pub checked : Bool → Str → Str → Cell → Result Bool × Cell → Result Bool × Cell
unfolding not_initialised blank
checked initialised key token c next =
    if not initialised
    then (err not_initialised, c)
    else if is_blank key || is_blank token
    then (err blank, c)
    else next

-- SETNX with the expiry.
unfoldable pub set_nx : Str → ℕ → Time → Cell → Result Bool × Cell
set_nx token ttl now none = (ok true, some (record { token = token; expires = now + ttl }))
set_nx token ttl now (some e) = (ok false, some e)

-- Client.Acquire
unfoldable pub acquire : Bool → Str → Str → ℤ → Time → Cell → Result Bool × Cell
unfolding checked set_nx live ttl_or_default
acquire initialised key token ttl now c =
    checked initialised key token (live now c)
      (set_nx (trim_space token) (ttl_or_default ttl) now (live now c))

-- refreshScript: KEYS[1] is the key, ARGV the token and the milliseconds.
unfoldable pub refresh_script : Str → ℕ → Time → Cell → Result Bool × Cell
refresh_script token ms now none = (ok false, none)
refresh_script token ms now (some e) =
    if e.token === token
    then (ok true, some (record e { expires = now + ms * millisecond }))
    else (ok false, some e)

-- Client.Refresh
unfoldable pub refresh : Bool → Str → Str → ℤ → Time → Cell → Result Bool × Cell
unfolding checked refresh_script live ttl_or_default px
refresh initialised key token ttl now c =
    checked initialised key token (live now c)
      (refresh_script (trim_space token) (px (ttl_or_default ttl)) now (live now c))

-- releaseScript
unfoldable pub release_script : Str → Cell → Result Bool × Cell
release_script token none = (ok false, none)
release_script token (some e) = if e.token === token then (ok true, none) else (ok false, some e)

-- Client.Release
unfoldable pub release : Bool → Str → Str → Time → Cell → Result Bool × Cell
unfolding checked release_script live
release initialised key token now c =
    checked initialised key token (live now c) (release_script (trim_space token) (live now c))
