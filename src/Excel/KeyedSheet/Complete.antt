-- ===== src/Excel/KeyedSheet/Complete.antt =====
-- The sheets of the added and of the removed rows leave out no key.
use guangyang.Prelude.{
  ℕ, suc, get_elem?, ◌<◌, ◌≡◌, ◌∙◌, ap, refl, true, false, ◌||◌, List, [], ◌∷◌, map, arith, ◌==◌,
  length, Option-cases, inl, inr,
}
use guangyang.Text.{Str, ===_refl}
use guangyang.Errors.{ok}
use guangyang.Excel.StrMap.{StrMap, lookup, has, elem}
use guangyang.Excel.KeyedRows.{Row}
use guangyang.Excel.Artifacts.{Artifacts, compare_artifacts_from_maps}
use guangyang.Excel.Artifacts.Facts.{compare_artifacts_from_maps-partition}
use guangyang.Excel.Diff.{Cell, plain, row_of, safe_cell_value}
use guangyang.Excel.KeyedSheet.{cell_text, sheet_row, sheet_rows, add_row, write_simple_keyed_sheet}

-- A row as wide as the headers: the row's own cells from the left, and empty ones behind them.
abbrev pub fitted : List Str → Row → List Str
fitted [] r = []
fitted (h ∷ hs) [] = [] ∷ fitted hs []
fitted (h ∷ hs) (v ∷ r) = safe_cell_value v ∷ fitted hs r

sheet_row-nil : (hs : List Str) (i : ℕ) → sheet_row hs i [] ≡ map plain (fitted hs [])
unfolding sheet_row cell_text
sheet_row-nil [] i = refl
sheet_row-nil (h ∷ hs) i = ap (λ cells. plain [] ∷ cells) (sheet_row-nil hs (suc i))

sheet_row-suc :
    (hs : List Str) (i : ℕ) (v : Str) (r : Row) → sheet_row hs (suc i) (v ∷ r) ≡ sheet_row hs i r
unfolding sheet_row
sheet_row-suc [] i v r = refl
sheet_row-suc (h ∷ hs) i v r =
    ap (λ cells. plain (cell_text (get_elem? r i)) ∷ cells) (sheet_row-suc hs (suc i) v r)

sheet_row-fitted : (hs : List Str) (r : Row) → sheet_row hs 0 r ≡ map plain (fitted hs r)
unfolding sheet_row cell_text
sheet_row-fitted [] r = refl
sheet_row-fitted (h ∷ hs) [] = sheet_row-nil (h ∷ hs) 0
sheet_row-fitted (h ∷ hs) (v ∷ r) =
    ap (λ cells. plain (safe_cell_value v) ∷ cells) (sheet_row-suc hs 0 v r ∙ sheet_row-fitted hs r)

add_row-found :
    (headers : List Str) (m : StrMap Row) (k : Str) (rest : List (List Cell))
    → has k m ≡ true
    → add_row headers (lookup k m) rest ≡ sheet_row headers 0 (row_of m k) ∷ rest
unfolding add_row row_of
add_row-found headers m k rest h = elim (Option-cases (lookup k m)) [
  | inl e ↦ ground arith
  | inr (r, e) ↦ rw e refl
]

sheet_rows-map :
    (headers : List Str) (m : StrMap Row) (ks : List Str)
    → ((k : Str) → elem k ks ≡ true → has k m ≡ true)
    → sheet_rows headers m ks ≡ map (λ k. map plain (fitted headers (row_of m k))) ks
unfolding sheet_rows
sheet_rows-map headers m [] h = refl
sheet_rows-map headers m (k ∷ ks) h =
    add_row-found headers m k (sheet_rows headers m ks)
      (h k (unfold elem in ground (arith, ===_refl k)))
    ∙ ap (λ row. row ∷ sheet_rows headers m ks) (sheet_row-fitted headers (row_of m k))
    ∙ ap (λ rest. map plain (fitted headers (row_of m k)) ∷ rest)
        (sheet_rows-map headers m ks (λ j e. h j (unfold elem in ground arith)))

-- The sheet of the added rows, where there are headers and added keys, has the headers and one row for
-- each added key, in their order: the row that the second table has for the key, cut or filled up to
-- the width of the headers.
pub write_simple_keyed_sheet-added :
    (h1 h2 : List Str) (m1 m2 : StrMap Row) (key msg : Str) (art : Artifacts)
    → compare_artifacts_from_maps h1 h2 m1 m2 key ≡ ok art
    → 0 < length art.inc_headers
    → 0 < length art.inc_keys
    → write_simple_keyed_sheet art.inc_headers art.inc_keys art.right_by_key msg
      ≡ map plain h2 ∷ map (λ k. map plain (fitted h2 (row_of m2 k))) art.inc_keys
unfolding write_simple_keyed_sheet
write_simple_keyed_sheet-added h1 h2 m1 m2 key msg art e hh hk =
    let same : (art.inc_headers ≡ h2) × (art.right_by_key ≡ m2) =
      unfold compare_artifacts_from_maps in ground arith in
    let eh = same.0 in
    let em = same.1 in
    let found : (k : Str) → elem k art.inc_keys ≡ true → has k m2 ≡ true = λ k he.
      let p = compare_artifacts_from_maps-partition h1 h2 m1 m2 key k art e in
      let q = p.1 in ground arith in
    let t : (length art.inc_headers == 0 || length art.inc_keys == 0) ≡ false = ground arith in
    rw t (rw (eh, em) (ap (λ rows. map plain h2 ∷ rows) (sheet_rows-map h2 m2 art.inc_keys found)))

-- The sheet of the removed rows, where there are headers and removed keys, has the headers and one row
-- for each removed key, in their order: the row that the first table has for the key, cut or filled up
-- to the width of the headers.
pub write_simple_keyed_sheet-removed :
    (h1 h2 : List Str) (m1 m2 : StrMap Row) (key msg : Str) (art : Artifacts)
    → compare_artifacts_from_maps h1 h2 m1 m2 key ≡ ok art
    → 0 < length art.red_headers
    → 0 < length art.reduced_keys
    → write_simple_keyed_sheet art.red_headers art.reduced_keys art.left_by_key msg
      ≡ map plain h1 ∷ map (λ k. map plain (fitted h1 (row_of m1 k))) art.reduced_keys
unfolding write_simple_keyed_sheet
write_simple_keyed_sheet-removed h1 h2 m1 m2 key msg art e hh hk =
    let same : (art.red_headers ≡ h1) × (art.left_by_key ≡ m1) =
      unfold compare_artifacts_from_maps in ground arith in
    let eh = same.0 in
    let em = same.1 in
    let found : (k : Str) → elem k art.reduced_keys ≡ true → has k m1 ≡ true = λ k he.
      let p = compare_artifacts_from_maps-partition h1 h2 m1 m2 key k art e in
      let q = p.0 in ground arith in
    let t : (length art.red_headers == 0 || length art.reduced_keys == 0) ≡ false = ground arith in
    rw t
      (rw (eh, em) (ap (λ rows. map plain h1 ∷ rows) (sheet_rows-map h1 m1 art.reduced_keys found)))
