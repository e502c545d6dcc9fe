-- ===== src/Store/Agree.antt =====
-- The two job stores agree where nobody disturbs the one in Redis.
use guangyang.Prelude.{
  ◌≡◌, refl, false, [], ◌∷◌, ◌++◌, Option, none, some, arith, Option-cases, Bool-cases, inl, inr,
}
use guangyang.Text.{Str, codes, ◌===◌, trim_space, is_blank}
use guangyang.Domain.{CompareJob}
use guangyang.Errors.{GoError}
use guangyang.Effects.{GetReply, not_found, found}
use guangyang.Excel.StrMap.{StrMap, lookup, assign, lookup-assign}
use guangyang.Store.Memory
use guangyang.Store.{CompareJobRecord, Cell, stored, read_cell, key, create, get, update}
use guangyang.Store.Atomic.{update-touched, read_cell-stored}

-- The value that a call leaves under its key; none of them deletes one.
abbrev pub write_cell : Str → Cell → StrMap Str → StrMap Str
write_cell k none d = d
write_cell k (some text) d = assign k text d

module _ (encode : CompareJobRecord → Str) (decode : Str → Option CompareJobRecord)
    (decode_error : GoError) where
  -- The calls on the whole of Redis.
  unfoldable pub db_get : Str → StrMap Str → GetReply
  db_get id d = get encode decode decode_error id none (lookup (key id) d)

  unfoldable pub db_create : CompareJob → StrMap Str → StrMap Str
  db_create job d =
      write_cell (key job.id) (create encode decode decode_error job (lookup (key job.id) d)).1 d

  unfoldable pub db_update : Str → (CompareJob → CompareJob) → StrMap Str → GetReply × StrMap Str
  db_update id fn d =
      let r = update encode decode decode_error fn id [] (lookup (key id) d) in
      (r.0, write_cell (key id) r.1 d)

  abbrev pub texts : Option CompareJob → Option Str
  texts none = none
  texts (some j) = some (stored encode decode decode_error j)

  -- Redis holds the jobs of the map, under the keys of their identifiers.
  abbrev pub Holds : StrMap CompareJob → StrMap Str → Type 0
  Holds m d = (id : Str) → trim_space id ≡ id → lookup (key id) d ≡ texts (lookup id m)

append-=== : (p s t : Str) → (p ++ s === p ++ t) ≡ (s === t)
unfolding ◌===◌
append-=== [] s t = refl
append-=== (c ∷ p) s t = ground (arith, append-=== p s t)

key-=== :
    (id id' : Str) → trim_space id ≡ id → trim_space id' ≡ id' → (key id === key id') ≡ (id === id')
unfolding key
key-=== id id' e e' = rw (e, e') (append-=== (codes "gy:comparejob:") id id')

module _ (encode : CompareJobRecord → Str) (decode : Str → Option CompareJobRecord)
    (decode_error : GoError) (law : (r : CompareJobRecord) → decode (encode r) ≡ some r) where
  assign-Holds :
      (m : StrMap CompareJob) (d : StrMap Str) (id : Str) (j : CompareJob)
      → trim_space id ≡ id
      → Holds encode decode decode_error m d
      → Holds encode decode decode_error
          (assign id j m)
          (assign (key id) (stored encode decode decode_error j) d)
  assign-Holds m d id j e h id' e' =
      let t = stored encode decode decode_error j in
      let l = lookup-assign (key id) (key id') t d in
      let r = lookup-assign id id' j m in
      let k = key-=== id id' e e' in
      let old = h id' e' in
      elim (Bool-cases (id === id')) [
        | inl same ↦
            let t1 : lookup (key id') (assign (key id) t d) ≡ some t = rw (l, k, same) refl in
            let t2 : lookup id' (assign id j m) ≡ some j = rw (r, same) refl in rw (t1, t2) refl
        | inr other ↦
            let t1 : lookup (key id') (assign (key id) t d) ≡ lookup (key id') d =
              rw (l, k, other) refl in
            let t2 : lookup id' (assign id j m) ≡ lookup id' m = rw (r, other) refl in
            rw (t1, t2) old
      ]

  update-none :
      (id : Str) (fn : CompareJob → CompareJob)
      → is_blank id ≡ false
      → update encode decode decode_error fn id [] none ≡ (not_found, none)
  unfolding update read_cell
  update-none id fn b = rw b refl

  update-some :
      (id : Str) (fn : CompareJob → CompareJob) (j : CompareJob)
      → is_blank id ≡ false
      → update encode decode decode_error fn id [] (some (stored encode decode decode_error j))
        ≡ (found (fn j), some (stored encode decode decode_error (fn j)))
  update-some id fn j b =
      let back = read_cell-stored encode decode decode_error law j in
      update-touched encode decode decode_error fn id []
        (some (stored encode decode decode_error j)) j b (omega arith) ((j, back), tt) back

  -- Get of the same job.
  pub get-agree :
      (m : StrMap CompareJob) (d : StrMap Str) (id : Str)
      → trim_space id ≡ id
      → is_blank id ≡ false
      → Holds encode decode decode_error m d
      → db_get encode decode decode_error id d ≡ Memory.get id m
  unfolding db_get get Memory.get
  get-agree m d id e b h =
      let at = h id e in
      rw b (elim (Option-cases (lookup id m)) [
        | inl none_there ↦ rw (at, none_there) (unfold read_cell in refl)
        | inr (j, there) ↦ rw (at, there) (read_cell-stored encode decode decode_error law j)
      ])

  -- Update gives the same reply, and the stores hold the same jobs afterwards.
  pub update-agree :
      (m : StrMap CompareJob) (d : StrMap Str) (id : Str) (fn : CompareJob → CompareJob)
      → trim_space id ≡ id
      → is_blank id ≡ false
      → Holds encode decode decode_error m d
      → ((db_update encode decode decode_error id fn d).0 ≡ (Memory.update id fn m).0)
        × Holds encode decode decode_error
            (Memory.update id fn m).1
            (db_update encode decode decode_error id fn d).1
  unfolding db_update Memory.update
  update-agree m d id fn e b h =
      let at = h id e in
      elim (Option-cases (lookup id m)) [
        | inl none_there ↦ let u = update-none id fn b in rw (at, none_there) (rw u (refl, h))
        | inr (j, there) ↦
            let u = update-some id fn j b in
            rw (at, there) (rw u (refl, assign-Holds m d id (fn j) e h))
      ]

  -- Create of a job whose identifier is new makes the same job known to both.
  pub create-agree :
      (m : StrMap CompareJob) (d : StrMap Str) (j : CompareJob)
      → trim_space j.id ≡ j.id
      → is_blank j.id ≡ false
      → lookup j.id m ≡ none
      → Holds encode decode decode_error m d
      → Holds encode decode decode_error
          (Memory.create j m)
          (db_create encode decode decode_error j d)
  unfolding db_create create Memory.create
  create-agree m d j e b new h =
      let at = h j.id e in rw (at, new) (rw b (assign-Holds m d j.id j e h))
