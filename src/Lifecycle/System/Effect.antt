-- ===== src/Lifecycle/System/Effect.antt =====
-- One effect of a safe program keeps the invariant of every record, and takes nothing back.
use guangyang.Prelude.{◌≡◌, refl, Bool, true, false, ◌||◌, ◌&&◌, Bool-cases, inl, inr}
use guangyang.Text.{Str, trim_space, ◌===◌, ===_sound}
use guangyang.Domain.{CompareJob}
use guangyang.Effects.{Prog, GetReply}
use guangyang.Lifecycle.Invariant.{JobInv, Keeps, Keeps-refl, Keeps-trans, Allowed}
use guangyang.Lifecycle.Safe.{Seen, see, IsSafe, Any}
use guangyang.Lifecycle.System.{
  Cell, fresh, gone, alive, Jobs, put, reply_of, updated, Act, called, read, read_failed, written,
  lost, created, not_created, Thread,
}

abbrev pub CellInv : Cell → Type 0
CellInv (alive j) = JobInv j
CellInv _ = Unit

-- What a program has seen still holds; nothing was seen of a record that was never made.
abbrev pub Known : Bool → Cell → Type 0
Known b fresh = b ≡ false
Known b gone = Unit
Known b (alive j) = b ≡ true → j.paid ≡ true

-- How a record may change.
abbrev pub CellKeeps : Cell → Cell → Type 0
CellKeeps fresh d = Unit
CellKeeps gone gone = Unit
CellKeeps gone _ = ⊥
CellKeeps (alive j) (alive k) = Keeps j k
CellKeeps (alive j) gone = Unit
CellKeeps (alive j) fresh = ⊥

pub CellKeeps-refl : (c : Cell) → CellKeeps c c
CellKeeps-refl fresh = tt
CellKeeps-refl gone = tt
CellKeeps-refl (alive j) = Keeps-refl j

pub CellKeeps-trans : (c d e : Cell) → CellKeeps c d → CellKeeps d e → CellKeeps c e
CellKeeps-trans fresh d e h g = tt
CellKeeps-trans gone gone gone h g = tt
CellKeeps-trans gone gone (alive k) h g = g
CellKeeps-trans gone gone fresh h g = g
CellKeeps-trans gone (alive k) e h g = elim h [ ]
CellKeeps-trans gone fresh e h g = elim h [ ]
CellKeeps-trans (alive j) fresh e h g = elim h [ ]
CellKeeps-trans (alive j) gone gone h g = tt
CellKeeps-trans (alive j) gone fresh h g = g
CellKeeps-trans (alive j) gone (alive k) h g = elim g [ ]
CellKeeps-trans (alive j) (alive k) fresh h g = g
CellKeeps-trans (alive j) (alive k) gone h g = tt
CellKeeps-trans (alive j) (alive k) (alive l) h g = Keeps-trans h g

pub Known-false : (c : Cell) → Known false c
Known-false fresh = refl
Known-false gone = tt
Known-false (alive j) = λ e. cc

pub Known-keeps : (b : Bool) (c d : Cell) → CellKeeps c d → Known b c → Known b d
Known-keeps b fresh d h k = rw k (Known-false d)
Known-keeps b gone gone h k = tt
Known-keeps b gone (alive j) h k = elim h [ ]
Known-keeps b gone fresh h k = elim h [ ]
Known-keeps b (alive j) fresh h k = elim h [ ]
Known-keeps b (alive j) gone h k = tt
Known-keeps b (alive j) (alive l) h k = λ e. h.stays_paid (k e)

-- Changing one record.
module _ (P : Str → Cell → Type 0) (s : Jobs) (id : Str) (c : Cell) where
  pub put_all : ((k : Str) → P k (s k)) → P id c → (k : Str) → P k (put s id c k)
  put_all h hc k = elim (Bool-cases (k === id)) [
    | inl e ↦ rw e (rw (===_sound k id e) hc)
    | inr e ↦ rw e (h k)
  ]

-- The state of the store before and after an effect, and what the program has seen then.
pub record Kept (s s' : Jobs) (m' : Prog (Unit {0})) : Type 0 where
  pub cells : (k : Str) → CellInv (s' k)
  pub keeps : (k : Str) → CellKeeps (s k) (s' k)
  pub seen : Seen
  pub safe : IsSafe Any seen m'
  pub known : (k : Str) → Known (seen k) (s' k)

updated-CellInv :
    {b : Bool} {f : CompareJob → CompareJob} (c : Cell)
    → Allowed b f
    → CellInv c
    → Known b c
    → CellInv (updated f c)
updated-CellInv fresh a h k = tt
updated-CellInv gone a h k = tt
updated-CellInv (alive j) a h k = a.inv j h k

updated-CellKeeps :
    {b : Bool} {f : CompareJob → CompareJob} (c : Cell)
    → Allowed b f
    → CellInv c
    → CellKeeps c (updated f c)
updated-CellKeeps fresh a h = tt
updated-CellKeeps gone a h = tt
updated-CellKeeps (alive j) a h = a.keeps j h

-- What a read shows is known from then on.
see-Known :
    (b same paid : Bool) (c : Cell)
    → Known b c
    → (same ≡ true → (j : CompareJob) × (c ≡ alive j) × (j.paid ≡ paid))
    → Known (b || (same && paid)) c
see-Known true same paid c h e = h
see-Known false false paid c h e = h
see-Known false true paid c h e = let (j, at, eq) = e refl in rw at (rw eq (λ x. x))

module _ (s : Jobs) (p : Seen) (inv : (k : Str) → CellInv (s k))
    (kn : (k : Str) → Known (p k) (s k)) where
  keeps_refl : (k : Str) → CellKeeps (s k) (s k)
  keeps_refl k = CellKeeps-refl (s k)

  -- An effect that leaves the store as it is, and shows nothing.
  unchanged : (m' : Thread) → IsSafe Any p m' → Kept s s m'
  unchanged m' h = record { cells = inv; keeps = keeps_refl; seen = p; safe = h; known = kn }

  read-Kept :
      (id : Str) (k : GetReply → Thread)
      → IsSafe Any p (Prog.get_job id k)
      → (c : Cell) → s (trim_space id) ≡ c
      → Kept s s (k (reply_of c))
  read-Kept id k h fresh e = unchanged _ (record { holds = h.holds.1 })
  read-Kept id k h gone e = unchanged _ (record { holds = h.holds.1 })
  read-Kept id k h (alive j) e = record {
    cells = inv;
    keeps = keeps_refl;
    seen = see p id j.paid;
    safe = record { holds = h.holds.2 j (rw e at (inv (trim_space id))) };
    known = λ x.
        see-Known (p x) (x === trim_space id) j.paid (s x) (kn x)
          (λ same. (j, rw (===_sound x (trim_space id) same) e, refl));
  }

  put-Kept :
      (id : Str) (c : Cell) (m' : Thread)
      → IsSafe Any p m'
      → CellInv c
      → CellKeeps (s id) c
      → Kept s (put s id c) m'
  put-Kept id c m' h i g = record {
    cells = put_all (λ k. CellInv) s id c inv i;
    keeps = put_all (λ k. CellKeeps (s k)) s id c keeps_refl g;
    seen = p;
    safe = h;
    known = put_all (λ k. Known (p k)) s id c kn (Known-keeps (p id) (s id) c g (kn id));
  }

  -- One effect.
  pub Act-Kept : (m m' : Thread) (s' : Jobs) → IsSafe Any p m → Act s m m' s' → Kept s s' m'
  Act-Kept m m' s' h (called r) = unchanged _ (record { holds = h.holds r })
  Act-Kept m m' s' h (read {id} {k}) = read-Kept id k h (s (trim_space id)) refl
  Act-Kept m m' s' h (read_failed e) = unchanged _ (record { holds = h.holds.0 e })
  Act-Kept m m' s' h (written {id} {f}) =
      put-Kept (trim_space id) (updated f (s (trim_space id))) _ (record { holds = h.holds.1 })
        (updated-CellInv (s (trim_space id)) h.holds.0 (inv _) (kn _))
        (updated-CellKeeps (s (trim_space id)) h.holds.0 (inv _))
  Act-Kept m m' s' h lost = unchanged _ (record { holds = h.holds.1 })
  Act-Kept m m' s' h (created {j} e) =
      put-Kept (trim_space j.id) (alive j) _ (record { holds = h.holds.1 }) h.holds.0 (rw e tt)
  Act-Kept m m' s' h not_created = unchanged _ (record { holds = h.holds.1 })
