-- ===== src/Excel/KeyedRows.antt =====
-- buildKeyRowMap of gobackend/excelcmp/compare.go and the closure `add` of loadKeyedSheetXLSX in
-- keyedread.go: the rows of a table by their normalized keys.
pub mod Unique
use guangyang.Prelude.{
  ℕ, ◌≡◌, refl, Bool, true, false, List, [], ◌∷◌, ◌++◌, Option, none, some, is_some, ltb, length,
  get_elem?, if◌then◌else◌,
}
use guangyang.Text.{Str, codes, is_blank}
use guangyang.Excel.Normalize.{normalize_scalar}
use guangyang.Excel.StrMap.{StrMap, lookup, assign, has, elem}

abbrev pub Row : Type 0
Row = List Str

-- readxlsx.go
pub record Table : Type 0 where
  pub headers : List Str
  pub rows : List Row

-- The variables out, dups and seenDup.
pub record Keyed : Type 0 where
  pub by_key : StrMap Row
  pub dups : List Str
  pub seen_dup : List Str

abbrev pub empty : Keyed
empty = record { by_key = []; dups = []; seen_dup = [] }

-- The key is there already: it is reported once, and among the first ten only.
unfoldable pub add_duplicate : Str → Keyed → Keyed
add_duplicate k s = if elem k s.seen_dup then s else record s {
  dups = if ltb (length s.dups) 10 then s.dups ++ k ∷ [] else s.dups;
  seen_dup = k ∷ s.seen_dup;
}

unfoldable pub add_keyed : Str → Row → Keyed → Keyed
add_keyed k row s =
    if has k s.by_key then add_duplicate k s else record s { by_key = assign k row s.by_key }

unfoldable pub cell_key : Option Str → Option Str
cell_key none = none
cell_key (some cell) = let k = normalize_scalar cell in if is_blank k then none else some k

-- The key of a row: none if the cell is missing or its key is blank.
unfoldable pub row_key : ℕ → Row → Option Str
unfolding cell_key
row_key idx row = cell_key (get_elem? row idx)

unfoldable pub add_to : Option Str → Row → Keyed → Keyed
unfolding add_keyed add_duplicate
add_to none row s = s
add_to (some k) row s = add_keyed k row s

-- One round of the loop.
unfoldable pub add : ℕ → Row → Keyed → Keyed
unfolding add_to row_key
add idx row s = add_to (row_key idx row) row s

unfoldable pub add_rows : ℕ → List Row → Keyed → Keyed
unfolding add
add_rows idx [] s = s
add_rows idx (row ∷ rows) s = add_rows idx rows (add idx row s)

-- buildKeyRowMap
unfoldable pub build_key_row_map : Table → ℕ → Keyed
unfolding add_rows
build_key_row_map tbl idx = add_rows idx tbl.rows empty
