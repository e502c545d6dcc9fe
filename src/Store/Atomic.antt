-- ===== src/Store/Atomic.antt =====
-- Update in Redis is atomic: it applies its closure once, to the value that the others left, or not at
-- all.
use guangyang.Prelude.{
  ℕ, zero, suc, ◌<◌, ◌≡◌, ◌⊎◌, refl, true, false, List, [], ◌∷◌, map, Option, none, some, arith,
  length, take, All, Option-cases, inl, inr,
}
use guangyang.Text.{Str, codes, is_blank}
use guangyang.Domain.{CompareJob}
use guangyang.Errors.{GoError, new}
use guangyang.Effects.{GetReply, get_failed, not_found, found}
use guangyang.Store.{
  CompareJobRecord, record_from_job, job_from_record, Cell, Round, quiet, get_fails, touched,
  exec_lost, Attempt, done, tx_failed, left_by, stored, decoded, read_cell, commit, after_get,
  watch, tries, update, retried,
}

-- If `Update` itself writes nothing: `seen` is what it saw in its last round, and `now` what the key
-- holds after it.
abbrev pub Left : Cell → List Round → Cell → Cell → Type 0
Left c [] seen now = (seen ≡ c) × (now ≡ c)
Left c (quiet ∷ rs) seen now = (seen ≡ c) × (now ≡ c)
Left c (get_fails e ∷ rs) seen now = (seen ≡ c) × (now ≡ c)
Left c (exec_lost e b ∷ rs) seen now = (seen ≡ c) × (now ≡ c)
Left c (touched c' ∷ rs) seen now = ((seen ≡ c) × (now ≡ c')) ⊎ Left c' rs seen now

Left-now : (c : Cell) (r : Round) (rs : List Round) → Left c (r ∷ rs) c (left_by r c)
Left-now c quiet rs = (refl, refl)
Left-now c (get_fails e) rs = (refl, refl)
Left-now c (exec_lost e b) rs = (refl, refl)
Left-now c (touched c') rs = inl (refl, refl)

-- The last of the values.
abbrev pub last_of : Cell → List Cell → Cell
last_of c [] = c
last_of c (c' ∷ cs) = last_of c' cs

module _ (encode : CompareJobRecord → Str) (decode : Str → Option CompareJobRecord)
    (decode_error : GoError) where
  -- What one call of `Update` may do: it writes nothing and reports an error; it writes nothing and
  -- reports that it saw no value; or it writes what the closure makes of the job, which it saw and
  -- which the key still holds, and the reply is that job or is lost.
  pub data Outcome (fn : CompareJob → CompareJob) (seen now : Cell) (reply : GetReply) (c' : Cell)
      : Type 0 where
    failed : (e : GoError) → reply ≡ get_failed e → c' ≡ now → Outcome fn seen now reply c'
    missing : seen ≡ none → reply ≡ not_found → c' ≡ now → Outcome fn seen now reply c'
    applied :
        (j : CompareJob)
        → seen ≡ now
        → read_cell encode decode decode_error now ≡ found j
        → c' ≡ some (stored encode decode decode_error (fn j))
        → (reply ≡ found (fn j)) ⊎ ((e : GoError) × (reply ≡ get_failed e))
        → Outcome fn seen now reply c'

  read_cell-none : (c : Cell) → read_cell encode decode decode_error c ≡ not_found → c ≡ none
  unfolding read_cell decoded
  read_cell-none none h = refl
  read_cell-none (some text) h = elim (Option-cases (decode text)) [
    | inl e ↦ ground arith
    | inr (r, e) ↦ ground arith
  ]

  module _ (fn : CompareJob → CompareJob) where
    -- What one round comes to.
    Attempted : Cell → Round → Attempt → Type 0
    Attempted c r (done reply c') = Outcome fn c (left_by r c) reply c'
    Attempted c r (tx_failed c') = r ≡ touched c'

    after_get-Attempted :
        (r : Round) (c : Cell) (reply : GetReply)
        → read_cell encode decode decode_error c ≡ reply
        → Attempted c r (after_get encode decode decode_error fn r reply c)
    unfolding Attempted after_get commit
    after_get-Attempted r c (get_failed e') e = failed e' refl refl
    after_get-Attempted r c not_found e = missing (read_cell-none c e) refl refl
    after_get-Attempted quiet c (found j) e = applied j refl e refl (inl refl)
    after_get-Attempted (get_fails e') c (found j) e = failed e' refl refl
    after_get-Attempted (touched c') c (found j) e = refl
    after_get-Attempted (exec_lost e' true) c (found j) e = applied j refl e refl (inr (e', refl))
    after_get-Attempted (exec_lost e' false) c (found j) e = failed e' refl refl

    watch-Attempted :
        (r : Round) (c : Cell) → Attempted c r (watch encode decode decode_error fn r c)
    unfolding watch
    watch-Attempted quiet c = after_get-Attempted quiet c _ refl
    watch-Attempted (get_fails e) c = unfold Attempted in failed e refl refl
    watch-Attempted (touched c') c = after_get-Attempted (touched c') c _ refl
    watch-Attempted (exec_lost e b) c = after_get-Attempted (exec_lost e b) c _ refl

    -- The reply and the value are an outcome for what the others left.
    Total : Cell → List Round → GetReply × Cell → Type 0
    Total c rs out =
        (seen : Cell) × (now : Cell) × Left c rs seen now × Outcome fn seen now out.0 out.1

    retried-Total :
        (c : Cell) (r : Round) (rs : List Round) (a : Attempt) (again : Cell → GetReply × Cell)
        → Attempted c r a
        → ((c' : Cell) → Total c' rs (again c'))
        → Total c (r ∷ rs) (retried encode decode decode_error fn a again)
    unfolding Attempted retried Total
    retried-Total c r rs (done reply c') again h next = (c, left_by r c, Left-now c r rs, h)
    retried-Total c r rs (tx_failed c') again h next =
        let t = next c' in rw h (t.0, t.1, inr t.2, t.3)

    -- A quiet round is the last.
    retried-quiet :
        (c : Cell) (a : Attempt) (again : Cell → GetReply × Cell)
        → Attempted c quiet a
        → Total c [] (retried encode decode decode_error fn a again)
    unfolding Attempted retried Total
    retried-quiet c (done reply c') again h = (c, c, (refl, refl), h)
    retried-quiet c (tx_failed c') again h = cc

    tries-Total :
        (n : ℕ) (rs : List Round) (c : Cell)
        → Total c (take n rs) (tries encode decode decode_error fn n rs c)
    unfolding tries
    tries-Total zero rs c =
        unfold Total in
        (c, c, (refl, refl), failed (new (codes "redis update retry exceeded")) refl refl)
    tries-Total (suc n) [] c = retried-quiet c _ _ (watch-Attempted quiet c)
    tries-Total (suc n) (r ∷ rs) c =
        retried-Total c r (take n rs) _ _ (watch-Attempted r c) (tries-Total n rs)

    -- Update is atomic, whatever the other clients and the network do in its eight rounds: it leaves
    -- what the others left, with an error, or with the reply that it saw no value; or it replaces the
    -- job that the key holds, which is the one it saw, by what the closure makes of this job, and
    -- replies with that job or, if the reply was lost, with an error.
    pub update-Outcome :
        (id : Str) (rs : List Round) (c : Cell)
        → is_blank id ≡ false
        → (seen : Cell) × (now : Cell) × Left c (take 8 rs) seen now
          × Outcome fn seen now
              (update encode decode decode_error fn id rs c).0
              (update encode decode decode_error fn id rs c).1
    unfolding update
    update-Outcome id rs c h = rw h (unfold Total in tries-Total 8 rs c)

    tries-touched :
        (n : ℕ) (cs : List Cell) (c : Cell) (j : CompareJob)
        → length cs < n
        → All (λ x. (k : CompareJob) × (read_cell encode decode decode_error x ≡ found k)) (c ∷ cs)
        → read_cell encode decode decode_error (last_of c cs) ≡ found j
        → tries encode decode decode_error fn n (map touched cs) c
          ≡ (found (fn j), some (stored encode decode decode_error (fn j)))
    unfolding tries retried watch after_get commit
    tries-touched zero cs c j few ok last = absurd (omega arith)
    tries-touched (suc n) [] c j few ok last = rw last refl
    tries-touched (suc n) (c' ∷ cs) c j few ok last =
        let e = ok.0.1 in rw e (tries-touched n cs c' j (omega arith) ok.1 last)

    -- Update gets through if other clients disturb fewer than eight rounds: if each value that they
    -- leave is a job, the closure is applied to the last one.
    pub update-touched :
        (id : Str) (cs : List Cell) (c : Cell) (j : CompareJob)
        → is_blank id ≡ false
        → length cs < 8
        → All (λ x. (k : CompareJob) × (read_cell encode decode decode_error x ≡ found k)) (c ∷ cs)
        → read_cell encode decode decode_error (last_of c cs) ≡ found j
        → update encode decode decode_error fn id (map touched cs) c
          ≡ (found (fn j), some (stored encode decode decode_error (fn j)))
    unfolding update
    update-touched id cs c j h few ok last = rw h (tries-touched 8 cs c j few ok last)

  -- What is stored is read back as it was, if json reads back what it writes.
  pub read_cell-stored :
      ((r : CompareJobRecord) → decode (encode r) ≡ some r)
      → (j : CompareJob)
      → read_cell encode decode decode_error (some (stored encode decode decode_error j)) ≡ found j
  unfolding read_cell decoded
  read_cell-stored law j =
      rw (law (record_from_job j)) (unfold job_from_record record_from_job in refl)
