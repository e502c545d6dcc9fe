-- ===== src/Excel/KeyedSheet.antt =====
-- writeSimpleKeyedSheetStream of gobackend/excelcmp/export.go: the sheets of the added and of the
-- removed rows. As in the sheet of changed rows, each call of SetRow succeeds.
pub mod Complete
use guangyang.Prelude.{
  ℕ, suc, Bool, true, false, ◌||◌, List, [], ◌∷◌, map, Option, none, some, ◌==◌, length, get_elem?,
  if◌then◌else◌,
}
use guangyang.Text.{Str}
use guangyang.Excel.StrMap.{StrMap, lookup}
use guangyang.Excel.KeyedRows.{Row}
use guangyang.Excel.Diff.{Cell, plain, safe_cell_value}

unfoldable pub cell_text : Option Str → Str
cell_text none = []
cell_text (some v) = safe_cell_value v

-- The cells under the headers, from the i-th column.
unfoldable pub sheet_row : List Str → ℕ → Row → List Cell
unfolding cell_text
sheet_row [] i r = []
sheet_row (h ∷ hs) i r = plain (cell_text (get_elem? r i)) ∷ sheet_row hs (suc i) r

unfoldable add_row : List Str → Option Row → List (List Cell) → List (List Cell)
unfolding sheet_row
add_row headers none rest = rest
add_row headers (some r) rest = sheet_row headers 0 r ∷ rest

-- The loop over the keys: a key without a row is left out.
unfoldable pub sheet_rows : List Str → StrMap Row → List Str → List (List Cell)
unfolding add_row
sheet_rows headers by_key [] = []
sheet_rows headers by_key (k ∷ ks) =
    add_row headers (lookup k by_key) (sheet_rows headers by_key ks)

-- writeSimpleKeyedSheetStream
unfoldable pub write_simple_keyed_sheet : List Str → List Str → StrMap Row → Str → List (List Cell)
unfolding sheet_rows
write_simple_keyed_sheet headers keys by_key empty_msg =
    if length headers == 0 || length keys == 0
    then (plain empty_msg ∷ []) ∷ []
    else map plain headers ∷ sheet_rows headers by_key keys
