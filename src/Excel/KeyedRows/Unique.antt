-- ===== src/Excel/KeyedRows/Unique.antt =====
-- What the rows by key hold: the first row of each key, and whether a key repeats.
use guangyang.Prelude.{
  ℕ, ◌≤◌, ◌≡◌, ◌∙◌, refl, Bool, true, false, not, ◌||◌, ◌&&◌, List, [], ◌∷◌, ◌++◌, Option, none,
  some, is_some, arith, ltb, length, length-append, if◌then◌else◌, Bool-cases, inl, inr,
}
use guangyang.Text.{Str, ◌===◌, ===_iff}
use guangyang.Excel.StrMap.{StrMap, lookup, assign, has, elem, lookup-assign}
use guangyang.Excel.KeyedRows.{
  Row, Table, Keyed, empty, row_key, add_duplicate, add_keyed, add_to, add, add_rows,
  build_key_row_map,
}

-- The first row with a key.
first_of_key : Option Str → Str → Row → Option Row → Option Row
first_of_key none k row rest = rest
first_of_key (some j) k row rest = if j === k then some row else rest

pub first_row : ℕ → Str → List Row → Option Row
first_row idx k [] = none
first_row idx k (row ∷ rows) = first_of_key (row_key idx row) k row (first_row idx k rows)

-- What is found in `m`, or else in the rows.
abbrev or_first : Option Row → Option Row → Option Row
or_first none r = r
or_first (some row) r = some row

add_to-lookup :
    (key : Option Str) (row : Row) (s : Keyed) (k : Str) (rest : Option Row)
    → or_first (lookup k (add_to key row s).by_key) rest
      ≡ or_first (lookup k s.by_key) (first_of_key key k row rest)
unfolding add_to first_of_key
add_to-lookup none row s k rest = refl
add_to-lookup (some j) row s k rest = ground (arith, lookup-assign j k row s.by_key, ===_iff j k)

add_rows-lookup :
    (idx : ℕ) (rows : List Row) (s : Keyed) (k : Str)
    → lookup k (add_rows idx rows s).by_key ≡ or_first (lookup k s.by_key) (first_row idx k rows)
unfolding add_rows first_row
add_rows-lookup idx [] s k = ground arith
add_rows-lookup idx (row ∷ rows) s k =
    add_rows-lookup idx rows (add idx row s) k
    ∙ (unfold add in add_to-lookup (row_key idx row) row s k (first_row idx k rows))

-- Under each key the map holds the first row of the table with that key, and nothing under a key that
-- no row has.
pub build_key_row_map-first :
    (tbl : Table) (idx : ℕ) (k : Str)
    → lookup k (build_key_row_map tbl idx).by_key ≡ first_row idx k tbl.rows
unfolding build_key_row_map lookup
build_key_row_map-first tbl idx k = add_rows-lookup idx tbl.rows empty k

-- Whether some key of the rows stands in the map, and whether a key repeats among the rows.
key_in : Option Str → StrMap Row → Bool
key_in none m = false
key_in (some k) m = has k m

any_in : ℕ → List Row → StrMap Row → Bool
any_in idx [] m = false
any_in idx (row ∷ rows) m = key_in (row_key idx row) m || any_in idx rows m

repeats_in : ℕ → Option Str → List Row → Bool
repeats_in idx none rows = false
repeats_in idx (some k) rows = is_some (first_row idx k rows)

pub repeats : ℕ → List Row → Bool
repeats idx [] = false
repeats idx (row ∷ rows) = repeats_in idx (row_key idx row) rows || repeats idx rows

abbrev pub is_nil {ℓ} : {A : Type ℓ} → List A → Bool
is_nil [] = true
is_nil (x ∷ xs) = false

-- A duplicate that was seen was reported.
abbrev Reported : Keyed → Type 0
Reported s = is_nil s.dups ≡ true → s.seen_dup ≡ []

is_nil-snoc : (xs : List Str) (k : Str) → is_nil (xs ++ k ∷ []) ≡ false
is_nil-snoc [] k = refl
is_nil-snoc (x ∷ xs) k = refl

is_nil-long : (xs : List Str) → ltb (length xs) 10 ≡ false → is_nil xs ≡ false
is_nil-long [] h = ground arith
is_nil-long (x ∷ xs) h = refl

dups_after :
    (k : Str) (dups seen : List Str)
    → (is_nil dups ≡ true → seen ≡ [])
    → is_nil (if elem k seen then dups else if ltb (length dups) 10 then dups ++ k ∷ [] else dups)
      ≡ false
dups_after k [] seen h = rw (h refl) (unfold elem in refl)
dups_after k (x ∷ xs) seen h = ground arith

add_duplicate-dups : (k : Str) (s : Keyed) → Reported s → is_nil (add_duplicate k s).dups ≡ false
unfolding add_duplicate
add_duplicate-dups k s h = ground (arith, dups_after k s.dups s.seen_dup h)

has-assign :
    (k j : Str) (row : Row) (m : StrMap Row) → has j (assign k row m) ≡ (k === j || has j m)
has-assign k j row m = ground (arith, lookup-assign k j row m)

key_in-assign :
    (key : Option Str) (idx : ℕ) (k : Str) (row row' : Row) (m : StrMap Row) (rows : List Row)
    → (key_in key (assign k row m) || (any_in idx rows m || is_some (first_row idx k rows))) ≡ (
        (key_in key m || any_in idx rows m)
        || is_some (first_of_key key k row' (first_row idx k rows)))
unfolding key_in first_of_key
key_in-assign none idx k row row' m rows = refl
key_in-assign (some j) idx k row row' m rows =
    ground (arith, has-assign k j row m, ===_iff j k, ===_iff k j)

any_in-assign :
    (idx : ℕ) (k : Str) (row : Row) (m : StrMap Row) (rows : List Row)
    → any_in idx rows (assign k row m) ≡ (any_in idx rows m || is_some (first_row idx k rows))
unfolding any_in first_row
any_in-assign idx k row m [] = refl
any_in-assign idx k row m (r ∷ rows) =
    rw (any_in-assign idx k row m rows) (key_in-assign (row_key idx r) idx k row r m rows)

add_keyed_old :
    (k : Str) (row : Row) (s : Keyed)
    → has k s.by_key ≡ true
    → add_keyed k row s ≡ add_duplicate k s
unfolding add_keyed
add_keyed_old k row s h = rw h

add_keyed_new :
    (k : Str) (row : Row) (s : Keyed)
    → has k s.by_key ≡ false
    → add_keyed k row s ≡ record s { by_key = assign k row s.by_key }
unfolding add_keyed
add_keyed_new k row s h = rw h

key_in-nil : (key : Option Str) → key_in key [] ≡ false
unfolding key_in lookup
key_in-nil none = refl
key_in-nil (some k) = refl

-- One round, from what the rest of the rows gives.
add_to-dups :
    (idx : ℕ) (key : Option Str) (row : Row) (rows : List Row) (s : Keyed)
    → Reported s
    → Reported (add_to key row s)
      × ((is_nil (add_to key row s).dups
            && not (any_in idx rows (add_to key row s).by_key || repeats idx rows))
          ≡ (is_nil s.dups
              && not (
                  (key_in key s.by_key || any_in idx rows s.by_key)
                  || (repeats_in idx key rows || repeats idx rows))))
unfolding add_to key_in repeats_in
add_to-dups idx none row rows s h = (h, refl)
add_to-dups idx (some k) row rows s h = elim (Bool-cases (has k s.by_key)) [
  | inl old ↦
      let d = add_duplicate-dups k s h in
      rw (add_keyed_old k row s old) (λ e. cc (d, e), rw (d, old) (ground arith))
  | inr new ↦
      rw (add_keyed_new k row s new)
        (h, rw (any_in-assign idx k row s.by_key rows, new) (ground arith))
]

add_rows-dups :
    (idx : ℕ) (rows : List Row) (s : Keyed)
    → Reported s
    → is_nil (add_rows idx rows s).dups
      ≡ (is_nil s.dups && not (any_in idx rows s.by_key || repeats idx rows))
unfolding add_rows any_in repeats
add_rows-dups idx [] s h = ground arith
add_rows-dups idx (row ∷ rows) s h =
    let (h', e) = add_to-dups idx (row_key idx row) row rows s h in
    add_rows-dups idx rows (add idx row s) (unfold add in h') ∙ (unfold add in e)

any_in-nil : (idx : ℕ) (rows : List Row) → any_in idx rows [] ≡ false
unfolding any_in
any_in-nil idx [] = refl
any_in-nil idx (row ∷ rows) = rw (any_in-nil idx rows, key_in-nil (row_key idx row))

-- A duplicate is reported exactly if two rows of the table have the same key.
pub build_key_row_map-dups :
    (tbl : Table) (idx : ℕ) → is_nil (build_key_row_map tbl idx).dups ≡ not (repeats idx tbl.rows)
unfolding build_key_row_map
build_key_row_map-dups tbl idx =
    add_rows-dups idx tbl.rows empty (λ _. refl) ∙ rw (any_in-nil idx tbl.rows) refl

add_to-bound :
    (key : Option Str) (row : Row) (s : Keyed)
    → length s.dups ≤ 10
    → length (add_to key row s).dups ≤ 10
unfolding add_to add_keyed add_duplicate
add_to-bound none row s h = h
add_to-bound (some k) row s h = ground (arith, length-append s.dups (k ∷ []))

add_rows-bound :
    (idx : ℕ) (rows : List Row) (s : Keyed)
    → length s.dups ≤ 10
    → length (add_rows idx rows s).dups ≤ 10
unfolding add_rows add
add_rows-bound idx [] s h = h
add_rows-bound idx (row ∷ rows) s h =
    add_rows-bound idx rows (add idx row s) (add_to-bound (row_key idx row) row s h)

-- At most ten duplicates are reported, however many there are.
pub build_key_row_map-bound : (tbl : Table) (idx : ℕ) → length (build_key_row_map tbl idx).dups ≤ 10
unfolding build_key_row_map
build_key_row_map-bound tbl idx = add_rows-bound idx tbl.rows empty (omega arith)
