-- ===== src/RedisLock/Exclusion.antt =====
-- Any number of workers that use one lock, each with a token of its own: what each may rely on.
use guangyang.Prelude.{
  ℕ, ◌+◌, ◌*◌, ◌<◌, ◌≤◌, ◌≡◌, ◌≢◌, ◌⊎◌, ◌∙◌, subst, refl, sym, ap, Bool, true, false, Option, none,
  some, arith, ◌==◌, if◌then◌else◌, Bool-cases, inl, inr, ==_iff,
}
use guangyang.Prelude.Int.{ℤ}
use guangyang.Text.{Str, trim_space}
use guangyang.Errors.{Result, ok, err}
use guangyang.Domain.{Time}
use guangyang.RedisLock.Calls.{
  Backed, live-Backed, Sets, Keeps, acquire-cases, refresh-cases, release-cases,
}
use guangyang.RedisLock.Scripts.{
  Entry, Cell, live, millisecond, ttl_or_default, px, acquire, refresh, release,
}

module _ (key : Str) (token : ℕ → Str) (ttl : ℤ) where
  -- Redis under the key, the time, and until when each worker knows that it has the lock.
  pub record World : Type 0 where
    pub now : Time
    pub cell : Cell
    pub lease : ℕ → Option Time

  abbrev pub set_lease : (ℕ → Option Time) → ℕ → Option Time → ℕ → Option Time
  set_lease f i v j = if i == j then v else f j

  -- The lease after a reply: a worker that is told that it has the lock has it for the duration.
  unfoldable pub after_reply : Time → Result Bool → ℕ → (ℕ → Option Time) → ℕ → Option Time
  after_reply now (ok true) i f = set_lease f i (some (now + ttl_or_default ttl))
  after_reply now (ok false) i f = f
  after_reply now (err e) i f = f

  abbrev pub acquire_at : World → ℕ → Result Bool × Cell
  acquire_at w i = acquire true key (token i) ttl w.now w.cell

  abbrev pub refresh_at : World → ℕ → Result Bool × Cell
  refresh_at w i = refresh true key (token i) ttl w.now w.cell

  abbrev pub release_at : World → ℕ → Result Bool × Cell
  release_at w i = release true key (token i) w.now w.cell

  -- One step: time passes, or a worker makes a call, whose reply may be lost. A worker that calls
  -- Release gives up its lease before, and the call may be lost.
  pub data Step (w : World) : World → Type 0 where
    tick : (d : ℕ) → Step w (record w { now = w.now + d })
    acquired :
        (i : ℕ)
        → Step w (record w {
          cell = (acquire_at w i).1;
          lease = after_reply w.now (acquire_at w i).0 i w.lease;
        })
    acquire_lost : (i : ℕ) → Step w (record w { cell = (acquire_at w i).1 })
    refreshed :
        (i : ℕ)
        → Step w (record w {
          cell = (refresh_at w i).1;
          lease = after_reply w.now (refresh_at w i).0 i w.lease;
        })
    refresh_lost : (i : ℕ) → Step w (record w { cell = (refresh_at w i).1 })
    released :
        (i : ℕ) → Step w (record w { cell = (release_at w i).1; lease = set_lease w.lease i none })
    release_lost : (i : ℕ) → Step w (record w { lease = set_lease w.lease i none })

  pub data Reach (w : World) : World → Type 0 where
    here : Reach w w
    next : {u v : World} → Reach w u → Step u v → Reach w v

  abbrev pub init : World
  init = record { now = 0; cell = none; lease = λ i. none }

  record Inv (w : World) : Type 0 where
    bounded : (i : ℕ) (e : Time) → w.lease i ≡ some e → e ≤ w.now + ttl_or_default ttl
    backed :
        (i : ℕ) (e : Time) → w.lease i ≡ some e → w.now < e → Backed w.cell (trim_space (token i)) e

  set_lease-some :
      (f : ℕ → Option Time) (i : ℕ) (v : Option Time) (j : ℕ) (e : Time)
      → set_lease f i v j ≡ some e
      → ((j ≡ i) × (v ≡ some e)) ⊎ ((i == j ≡ false) × (f j ≡ some e))
  set_lease-some f i v j e = elim (Bool-cases (i == j)) [
    | inl same ↦ rw same (λ l. inl (sym ((==_iff i j).0 same), l))
    | inr other ↦ rw other (λ l. inr (refl, l))
  ]

  after_reply-other :
      (now : Time) (r : Result Bool) (i : ℕ) (f : ℕ → Option Time)
      → r ≢ ok true
      → after_reply now r i f ≡ f
  unfolding after_reply
  after_reply-other now (ok true) i f h = absurd (h refl)
  after_reply-other now (ok false) i f h = refl
  after_reply-other now (err e) i f h = refl

  module _ (distinct : (i j : ℕ) → trim_space (token i) ≡ trim_space (token j) → i ≡ j)
      (whole : px (ttl_or_default ttl) * millisecond ≡ ttl_or_default ttl) where
    -- A worker with a lease that lasts finds its token in what Redis shows.
    shown :
        {w : World} (inv : Inv w) (i : ℕ) (e : Time)
        → w.lease i ≡ some e
        → w.now < e
        → Backed (live w.now w.cell) (trim_space (token i)) e
    shown {w} inv i e l h = live-Backed w.now w.cell _ e h (inv.backed i e l h)

    -- Who can have a lease that lasts: nobody when Redis shows nothing, else the owner of its token.
    none-lasts :
        {w : World} (inv : Inv w)
        → live w.now w.cell ≡ none
        → (j : ℕ) (e : Time) → w.lease j ≡ some e
        → ¬ (w.now < e)
    none-lasts {w} inv empty j e l h =
        subst (λ c. Backed c (trim_space (token j)) e) empty (shown inv j e l h)

    owner-lasts :
        {w : World} (inv : Inv w) (i : ℕ) (entry : Entry)
        → live w.now w.cell ≡ some entry
        → entry.token ≡ trim_space (token i)
        → (j : ℕ) (e : Time) → w.lease j ≡ some e
        → w.now < e
        → j ≡ i
    owner-lasts {w} inv i entry seen own j e l h =
        let b = subst (λ c. Backed c (trim_space (token j)) e) seen (shown inv j e l h) in
        distinct j i (sym b.0 ∙ own)

    -- The lock was set for worker `i` for the whole duration, and no other lease lasts.
    held-Inv :
        (w : World) (f : ℕ → Option Time) (i : ℕ) {out : Result Bool × Cell}
        → ((j : ℕ) (e : Time) → f j ≡ some e → e ≤ w.now + ttl_or_default ttl)
        → ((j : ℕ) (e : Time) → f j ≡ some e → w.now < e → j ≡ i)
        → Sets (live w.now w.cell) (trim_space (token i)) w.now (ttl_or_default ttl) out
        → Inv (record w { cell = out.1; lease = f })
    held-Inv w f i bound only sets = record {
      bounded = bound;
      backed = λ j e l h.
          let own = sets.own ∙ ap (λ k. trim_space (token k)) (sym (only j e l h)) in
          let until = bound j e l in let far = sets.until in rw sets.after (own, (ground arith));
    }

    -- Redis keeps what it shows, and no lease is new.
    kept-Inv :
        (w : World) (f : ℕ → Option Time) (c : Cell)
        → Inv w
        → ((j : ℕ) (e : Time) → f j ≡ some e → w.lease j ≡ some e)
        → c ≡ live w.now w.cell
        → Inv (record w { cell = c; lease = f })
    kept-Inv w f c inv old ec = record {
      bounded = λ j e l. inv.bounded j e (old j e l);
      backed = λ j e l h. rw ec (shown inv j e (old j e l) h);
    }

    -- The replies that set the lock, received or lost.
    module _ (w : World) (inv : Inv w) (i : ℕ) (out : Result Bool × Cell)
        (only : (j : ℕ) (e : Time) → w.lease j ≡ some e → w.now < e → j ≡ i)
        (sets : Sets
          (live w.now w.cell)
          (trim_space (token i))
          w.now
          (ttl_or_default ttl)
          out) where
      sets_lost-Inv : Inv (record w { cell = out.1 })
      sets_lost-Inv = held-Inv w w.lease i inv.bounded only sets

      sets-Inv : Inv (record w { cell = out.1; lease = after_reply w.now out.0 i w.lease })
      unfolding after_reply
      sets-Inv = rw sets.reported (
          held-Inv w (set_lease w.lease i (some (w.now + ttl_or_default ttl))) i
            (λ j e l. elim (set_lease-some w.lease i _ j e l) [
              | inl this ↦ ground arith
              | inr that ↦ inv.bounded j e that.1
            ])
            (λ j e l h. elim (set_lease-some w.lease i _ j e l) [
              | inl this ↦ this.0
              | inr that ↦ only j e that.1 h
            ])
            sets)

    refused-Inv :
        (w : World) (i : ℕ) (out : Result Bool × Cell)
        → Inv w
        → Keeps (live w.now w.cell) out
        → Inv (record w { cell = out.1; lease = after_reply w.now out.0 i w.lease })
    refused-Inv w i out inv keeps =
        rw (after_reply-other w.now out.0 i w.lease keeps.0)
          (kept-Inv w w.lease out.1 inv (λ j e l. l) keeps.1)

    acquired-Inv :
        (w : World) (i : ℕ)
        → Inv w
        → Inv (record w { cell = (acquire_at w i).1 })
          × Inv (record w {
            cell = (acquire_at w i).1;
            lease = after_reply w.now (acquire_at w i).0 i w.lease;
          })
    acquired-Inv w i inv = elim (acquire-cases key (token i) ttl w.now w.cell) [
      | inl set ↦
          let only : (j : ℕ) (e : Time) → w.lease j ≡ some e → w.now < e → j ≡ i =
            λ j e l h. absurd (none-lasts inv set.0 j e l h) in
          (sets_lost-Inv w inv i _ only set.1, sets-Inv w inv i _ only set.1)
      | inr keeps ↦ (kept-Inv w w.lease _ inv (λ j e l. l) keeps.1, refused-Inv w i _ inv keeps)
    ]

    refreshed-Inv :
        (w : World) (i : ℕ)
        → Inv w
        → Inv (record w { cell = (refresh_at w i).1 })
          × Inv (record w {
            cell = (refresh_at w i).1;
            lease = after_reply w.now (refresh_at w i).0 i w.lease;
          })
    refreshed-Inv w i inv = elim (refresh-cases key (token i) ttl w.now w.cell) [
      | inl set ↦
          let only = owner-lasts inv i set.0.0 set.0.1 set.0.2 in
          let sets : Sets (live w.now w.cell) (trim_space (token i)) w.now (ttl_or_default ttl)
              (refresh_at w i) =
            rw (← whole) set.1 in
          (sets_lost-Inv w inv i _ only sets, sets-Inv w inv i _ only sets)
      | inr keeps ↦ (kept-Inv w w.lease _ inv (λ j e l. l) keeps.1, refused-Inv w i _ inv keeps)
    ]

    given_up :
        (w : World) (i j : ℕ) (e : Time) → set_lease w.lease i none j ≡ some e → w.lease j ≡ some e
    given_up w i j e l = elim (set_lease-some w.lease i none j e l) [
      | inl this ↦ absurd (let g = this.1 in cc)
      | inr that ↦ that.1
    ]

    released-Inv :
        (w : World) (i : ℕ)
        → Inv w
        → Inv (record w { cell = (release_at w i).1; lease = set_lease w.lease i none })
    released-Inv w i inv = elim (release-cases key (token i) w.now w.cell) [
      | inl own ↦ record {
        bounded = λ j e l. inv.bounded j e (given_up w i j e l);
        backed = λ j e l h. absurd (elim (set_lease-some w.lease i none j e l) [
          | inl this ↦ let g = this.1 in cc
          | inr that ↦
              let g = owner-lasts inv i own.0 own.1 own.2 j e that.1 h in
              let k = (==_iff i j).1 (sym g) in let o = that.0 in cc
        ]);
      }
      | inr kept ↦ kept-Inv w _ _ inv (given_up w i) kept
    ]

    Step-Inv : {w v : World} → Inv w → Step w v → Inv v
    Step-Inv {w} inv (tick d) = record {
      bounded = λ i e l. let g = inv.bounded i e l in ground arith;
      backed = λ i e l h. inv.backed i e l (ground arith);
    }
    Step-Inv {w} inv (acquired i) = (acquired-Inv w i inv).1
    Step-Inv {w} inv (acquire_lost i) = (acquired-Inv w i inv).0
    Step-Inv {w} inv (refreshed i) = (refreshed-Inv w i inv).1
    Step-Inv {w} inv (refresh_lost i) = (refreshed-Inv w i inv).0
    Step-Inv {w} inv (released i) = released-Inv w i inv
    Step-Inv {w} inv (release_lost i) = record {
      bounded = λ j e l. inv.bounded j e (given_up w i j e l);
      backed = λ j e l h. inv.backed j e (given_up w i j e l) h;
    }

    init-Inv : Inv init
    init-Inv = record {
      bounded = λ i e l. absurd (let g = l in cc);
      backed = λ i e l h. absurd (let g = l in cc);
    }

    Reach-Inv : {w : World} → Reach init w → Inv w
    Reach-Inv here = init-Inv
    Reach-Inv (next reach step) = Step-Inv (Reach-Inv reach) step

    -- Workers whose tokens differ once trimmed use one lock, for a duration of whole milliseconds,
    -- in any order, with any of their replies and releases lost: whatever they have reached from
    -- the start, two of them that have, by what they were told, the lock until a time yet to come
    -- are the same worker.
    pub Reach-exclusive :
        {w : World} (i j : ℕ) (e e' : Time)
        → Reach init w
        → w.lease i ≡ some e
        → w.now < e
        → w.lease j ≡ some e'
        → w.now < e'
        → i ≡ j
    Reach-exclusive {w} i j e e' reach li hi lj hj =
        let inv = Reach-Inv reach in both w.cell (inv.backed i e li hi) (inv.backed j e' lj hj)
      where
        both :
            (c : Cell)
            → Backed c (trim_space (token i)) e
            → Backed c (trim_space (token j)) e'
            → i ≡ j
        both none b b' = absurd b
        both (some entry) b b' = distinct i j (sym b.0 ∙ b'.0)
