-- ===== src/Lifecycle/Safe.antt =====
-- A program that may run beside all others: each of its writes is allowed by what it has seen. The
-- result of the program meets `Q`.
use guangyang.Prelude.{◌≡◌, refl, Bool, true, false, ◌||◌, ◌&&◌, arith, if◌then◌else◌}
use guangyang.Text.{Str, trim_space, ◌===◌, ===_refl}
use guangyang.Domain.{CompareJob}
use guangyang.Errors.{GoError}
use guangyang.Effects.{
  Call, Reply, Prog, ret, call, get_job, update_job, create_job, GetReply, get_failed, not_found,
  found, ◌>>=◌,
}
use guangyang.Lifecycle.Invariant.{JobInv, Allowed}

-- The jobs that a program has seen paid, by the key under which the store keeps them.
abbrev pub Seen : Type 0
Seen = Str → Bool

abbrev pub nothing_seen : Seen
nothing_seen k = false

abbrev pub see : Seen → Str → Bool → Seen
see p id paid k = p k || (k === trim_space id && paid)

abbrev Safe : {A : Type 0} → (A → Type 0) → Seen → Prog A → Type 0
Safe Q p (ret a) = Q a
Safe Q p (call c k) = (r : Reply c) → Safe Q p (k r)
Safe Q p (get_job id k) =
    ((e : GoError) → Safe Q p (k (get_failed e)))
    × Safe Q p (k not_found)
    × ((j : CompareJob) → JobInv j → Safe Q (see p id j.paid) (k (found j)))
Safe Q p (update_job id f m) = Allowed (p (trim_space id)) f × Safe Q p m
Safe Q p (create_job j m) = JobInv j × Safe Q p m

-- Any result will do.
abbrev pub Any : {A : Type 0} → A → Type 0
Any a = Unit

-- What was seen of one job.
pub see_now :
    (p : Seen) (id : Str) (paid : Bool) → paid ≡ true → see p id paid (trim_space id) ≡ true
see_now p id paid h = ground (arith, ===_refl (trim_space id))

Safe-bind :
    {A B : Type 0} (Q : A → Type 0) (R : B → Type 0) (f : A → Prog B) (p : Seen) (m : Prog A)
    → Safe Q p m
    → ((p' : Seen) (a : A) → Q a → Safe R p' (f a))
    → Safe R p (m >>= f)
unfolding ◌>>=◌
Safe-bind Q R f p (ret a) h g = g p a h
Safe-bind Q R f p (call c k) h g = λ r. Safe-bind Q R f p (k r) (h r) g
Safe-bind Q R f p (get_job id k) (hf, hn, hj) g = (
  λ e. Safe-bind Q R f p (k (get_failed e)) (hf e) g,
  Safe-bind Q R f p (k not_found) hn g,
  λ j inv. Safe-bind Q R f (see p id j.paid) (k (found j)) (hj j inv) g,
)
Safe-bind Q R f p (update_job id u m) (ha, hm) g = (ha, Safe-bind Q R f p m hm g)
Safe-bind Q R f p (create_job j m) (hi, hm) g = (hi, Safe-bind Q R f p m hm g)

pub record IsSafe {A : Type 0} (Q : A → Type 0) (p : Seen) (m : Prog A) : Type 0 where
  pub holds : Safe Q p m

-- The rules, one for each way to build a program.
module _ {A : Type 0} {Q : A → Type 0} {p : Seen} where
  pub IsSafe-ret : {a : A} → Q a → IsSafe Q p (ret a)
  IsSafe-ret h = record { holds = h }

  pub IsSafe-call :
      {c : Call} {k : Reply c → Prog A} → ((r : Reply c) → IsSafe Q p (k r)) → IsSafe Q p (call c k)
  IsSafe-call h = record { holds = λ r. (h r).holds }

  pub IsSafe-get :
      {id : Str} {k : GetReply → Prog A}
      → ((e : GoError) → IsSafe Q p (k (get_failed e)))
      → IsSafe Q p (k not_found)
      → ((j : CompareJob) → JobInv j → IsSafe Q (see p id j.paid) (k (found j)))
      → IsSafe Q p (get_job id k)
  IsSafe-get hf hn hj = record { holds = (λ e. (hf e).holds, hn.holds, λ j inv. (hj j inv).holds) }

  pub IsSafe-update :
      {id : Str} {f : CompareJob → CompareJob} {m : Prog A}
      → Allowed (p (trim_space id)) f
      → IsSafe Q p m
      → IsSafe Q p (update_job id f m)
  IsSafe-update a h = record { holds = (a, h.holds) }

  pub IsSafe-create :
      {j : CompareJob} {m : Prog A} → JobInv j → IsSafe Q p m → IsSafe Q p (create_job j m)
  IsSafe-create i h = record { holds = (i, h.holds) }

  pub IsSafe-if :
      (b : Bool) (m n : Prog A)
      → (b ≡ true → IsSafe Q p m)
      → (b ≡ false → IsSafe Q p n)
      → IsSafe Q p (if b then m else n)
  IsSafe-if true m n hm hn = hm refl
  IsSafe-if false m n hm hn = hn refl

pub IsSafe-bind :
    {A B : Type 0} {Q : A → Type 0} {R : B → Type 0} {f : A → Prog B} {p : Seen} {m : Prog A}
    → IsSafe Q p m
    → ((p' : Seen) (a : A) → Q a → IsSafe R p' (f a))
    → IsSafe R p (m >>= f)
IsSafe-bind {Q = Q} {R = R} {f = f} {p = p} {m = m} h g = record {
  holds = Safe-bind Q R f p m h.holds (λ p' a q. (g p' a q).holds);
}

pub ruleset safe_rules = (IsSafe-ret, IsSafe-call, IsSafe-update, IsSafe-if)
