-- ===== src/RedisLock/Calls.antt =====
-- What each call of the lock does to the value under its key, case by case.
use guangyang.Prelude.{
  ℕ, ◌+◌, ◌*◌, ◌<◌, ◌≤◌, ◌≡◌, ◌≢◌, ◌⊎◌, refl, Bool, true, ◌||◌, none, some, arith, ltb, Bool-cases,
  inl, inr,
}
use guangyang.Prelude.Int.{ℤ}
use guangyang.Text.{Str, trim_space, is_blank, ◌===◌, ===_sound}
use guangyang.Errors.{GoError, Result, ok, err}
use guangyang.Domain.{Time}
use guangyang.RedisLock.Scripts.{
  Entry, Cell, live, millisecond, ttl_or_default, px, checked, set_nx, acquire, refresh_script,
  refresh, release_script, release,
}

-- While a lease lasts, Redis holds the token of its worker for as long at least.
abbrev pub Backed : Cell → Str → Time → Type 0
Backed none t e = ⊥
Backed (some entry) t e = (entry.token ≡ t) × (e ≤ entry.expires)

pub live-Backed :
    (now : Time) (c : Cell) (t : Str) (e : Time) → now < e → Backed c t e → Backed (live now c) t e
unfolding live
live-Backed now none t e h b = b
live-Backed now (some entry) t e h b =
    let alive : ltb now entry.expires ≡ true = ground arith in rw alive b

-- What a call does to the value `l` that Redis shows: it reports the lock and sets an entry, or it
-- reports no lock and leaves the value.
pub record Sets (l : Cell) (t : Str) (now d : ℕ) (out : Result Bool × Cell) : Type 0 where
  pub entry : Entry
  pub reported : out.0 ≡ ok true
  pub after : out.1 ≡ some entry
  pub own : entry.token ≡ t
  pub until : entry.expires ≡ now + d

abbrev pub Keeps : Cell → Result Bool × Cell → Type 0
Keeps l out = (out.0 ≢ ok true) × (out.1 ≡ l)

set_nx-cases :
    (t : Str) (d now : ℕ) (l : Cell)
    → ((l ≡ none) × Sets l t now d (set_nx t d now l)) ⊎ Keeps l (set_nx t d now l)
unfolding set_nx
set_nx-cases t d now none = inl (
  refl,
  record {
    entry = record { token = t; expires = now + d };
    reported = refl;
    after = refl;
    own = refl;
    until = refl;
  },
)
set_nx-cases t d now (some e) = inr (λ h. cc, refl)

refresh_script-cases :
    (t : Str) (ms now : ℕ) (l : Cell)
    → (((e : Entry) × (l ≡ some e) × (e.token ≡ t))
        × Sets l t now (ms * millisecond) (refresh_script t ms now l))
      ⊎ Keeps l (refresh_script t ms now l)
unfolding refresh_script
refresh_script-cases t ms now none = inr (λ h. cc, refl)
refresh_script-cases t ms now (some e) = elim (Bool-cases (e.token === t)) [
  | inl h ↦
      let own = ===_sound e.token t h in
      inl (
        (e, refl, own),
        rw h (record {
          entry = record e { expires = now + ms * millisecond };
          reported = refl;
          after = refl;
          own = own;
          until = refl;
        }),
      )
  | inr h ↦ inr (rw h ((λ g. cc), refl))
]

release_script-cases :
    (t : Str) (l : Cell)
    → ((e : Entry) × (l ≡ some e) × (e.token ≡ t)) ⊎ ((release_script t l).1 ≡ l)
unfolding release_script
release_script-cases t none = inr refl
release_script-cases t (some e) = elim (Bool-cases (e.token === t)) [
  | inl h ↦ inl (e, refl, ===_sound e.token t h)
  | inr h ↦ inr (rw h refl)
]

checked-cases :
    (P : Result Bool × Cell → Type 0) (key token : Str) (l : Cell) (out : Result Bool × Cell)
    → P out
    → ((x : GoError) → P (err x, l))
    → P (checked true key token l out)
unfolding checked
checked-cases P key token l out h f = elim (Bool-cases (is_blank key || is_blank token)) [
  | inl b ↦ rw b (f _)
  | inr b ↦ rw b h
]

pub acquire-cases :
    (key token : Str) (ttl : ℤ) (now : Time) (c : Cell)
    → ((live now c ≡ none)
        × Sets
            (live now c)
            (trim_space token)
            now
            (ttl_or_default ttl)
            (acquire true key token ttl now c))
      ⊎ Keeps (live now c) (acquire true key token ttl now c)
unfolding acquire
acquire-cases key token ttl now c =
    checked-cases
      (λ out.
        ((live now c ≡ none) × Sets (live now c) (trim_space token) now (ttl_or_default ttl) out)
        ⊎ Keeps (live now c) out)
      key token (live now c) _
      (set_nx-cases (trim_space token) (ttl_or_default ttl) now (live now c))
      (λ x. inr (λ h. cc, refl))

pub refresh-cases :
    (key token : Str) (ttl : ℤ) (now : Time) (c : Cell)
    → (((e : Entry) × (live now c ≡ some e) × (e.token ≡ trim_space token))
        × Sets
            (live now c)
            (trim_space token)
            now
            (px (ttl_or_default ttl) * millisecond)
            (refresh true key token ttl now c))
      ⊎ Keeps (live now c) (refresh true key token ttl now c)
unfolding refresh
refresh-cases key token ttl now c =
    checked-cases
      (λ out.
        (((e : Entry) × (live now c ≡ some e) × (e.token ≡ trim_space token))
          × Sets (live now c) (trim_space token) now (px (ttl_or_default ttl) * millisecond) out)
        ⊎ Keeps (live now c) out)
      key token (live now c) _
      (refresh_script-cases (trim_space token) (px (ttl_or_default ttl)) now (live now c))
      (λ x. inr (λ h. cc, refl))

pub release-cases :
    (key token : Str) (now : Time) (c : Cell)
    → ((e : Entry) × (live now c ≡ some e) × (e.token ≡ trim_space token))
      ⊎ ((release true key token now c).1 ≡ live now c)
unfolding release
release-cases key token now c =
    checked-cases
      (λ out.
        ((e : Entry) × (live now c ≡ some e) × (e.token ≡ trim_space token)) ⊎ (out.1 ≡ live now c))
      key token (live now c) _ (release_script-cases (trim_space token) (live now c))
      (λ x. inr refl)
