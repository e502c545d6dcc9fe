-- ===== src/Excel/Diff.antt =====
-- writeDiffSideBySideStream of gobackend/excelcmp/export.go: the sheet of the rows that changed. A
-- sheet is the list of the rows given to SetRow, each call of which succeeds.
pub mod Scanning
pub mod Refine
use guangyang.Prelude.{
  ℕ, zero, suc, ◌+◌, ◌*◌, Bool, true, false, not, ◌&&◌, ◌||◌, List, [], ◌∷◌, ◌++◌, Option, none,
  some, ltb, leb, ◌==◌, length, get_elem?, if◌then◌else◌,
}
use guangyang.Text.{Str, codes, trim_space, is_blank, ◌===◌}
use guangyang.Excel.Normalize.{normalize_scalar}
use guangyang.Excel.StrMap.{StrMap, lookup, assign}
use guangyang.Excel.KeyedRows.{Row}
use guangyang.Excel.Artifacts.{Artifacts}
use guangyang.Excel.Mask.{Marks, zero_words, diff_mask_words, diff_mask_get, set_diff, reset_mask}
use guangyang.Excel.Fingerprint.{byte_length, fingerprint64}

-- excelize.Cell: its text, and whether it has the red style.
pub record Cell : Type 0 where
  pub value : Str
  pub red : Bool

-- safeCellValue
unfoldable pub safe_cell_value : Str → Str
safe_cell_value v = if is_blank v then [] else v

abbrev pub plain : Str → Cell
plain v = record { value = v; red = false }

-- normCache.m: the normalized text and its fingerprint, by the text of the cell.
abbrev pub Cache : Type 0
Cache = StrMap (Str × ℕ)

unfoldable hit_or_store : Str → Cache → Str × ℕ → Option (Str × ℕ) → (Str × ℕ) × Cache
hit_or_store raw cache fresh (some v) = (v, cache)
hit_or_store raw cache fresh none =
    (fresh, if ltb (length cache) 80000 then assign raw fresh cache else cache)

-- cachedNormalizeFP
unfoldable pub cached_normalize_fp : Str → Cache → (Str × ℕ) × Cache
unfolding hit_or_store
cached_normalize_fp raw cache =
    let n = normalize_scalar raw in
    let fresh : Str × ℕ = (n, fingerprint64 n) in
    if leb (byte_length raw) 64
    then hit_or_store raw cache fresh (lookup raw cache)
    else (fresh, cache)

unfoldable text_of : Option Str → Str
text_of none = []
text_of (some v) = v

unfoldable value_at : Row → Option (Option ℕ) → Str
unfolding text_of
value_at row none = []
value_at row (some none) = []
value_at row (some (some j)) = text_of (get_elem? row j)

-- The text of the i-th column in a row: empty without an index, or beyond the row's end.
unfoldable pub cell_at : List (Option ℕ) → Row → ℕ → Str
unfolding value_at
cell_at col_idx row i = value_at row (get_elem? col_idx i)

unfoldable row_or_nil : Option Row → Row
row_or_nil none = []
row_or_nil (some row) = row

-- m[k], which is nil for a missing key.
unfoldable pub row_of : StrMap Row → Str → Row
unfolding row_or_nil
row_of m k = row_or_nil (lookup k m)

-- The variables of the loop over the columns.
pub record Scan : Type 0 where
  pub cache : Cache
  pub marks : Marks
  pub has_diff : Bool

module _ (art : Artifacts) where
  unfoldable pub compare_col : Row → Row → ℕ → Scan → Scan
  unfolding cell_at cached_normalize_fp set_diff
  compare_col left right i s =
      let a = cached_normalize_fp (cell_at art.col_idx1 left i) s.cache in
      let b = cached_normalize_fp (cell_at art.col_idx2 right i) a.1 in
      let is_diff = not (a.0.1 == b.0.1) || not (a.0.0 === b.0.0) in
      record {
        cache = b.1;
        marks = if is_diff then set_diff i s.marks else s.marks;
        has_diff = s.has_diff || is_diff;
      }

  -- `n` columns, from the i-th.
  unfoldable pub compare_cols : Row → Row → ℕ → ℕ → Scan → Scan
  unfolding compare_col
  compare_cols left right zero i s = s
  compare_cols left right (suc n) i s =
      compare_cols left right n (suc i) (compare_col left right i s)

  -- The cells of `n` columns, from the i-th, for a test of the columns to show in red.
  unfoldable pub row_cells : Bool → (ℕ → Bool) → Row → Row → ℕ → ℕ → List Cell
  row_cells style is_diff left right zero i = []
  row_cells style is_diff left right (suc n) i =
      record { value = safe_cell_value (cell_at art.col_idx1 left i); red = is_diff i && style }
      ∷ record { value = safe_cell_value (cell_at art.col_idx2 right i); red = is_diff i && style }
      ∷ row_cells style is_diff left right n (suc i)

  unfoldable pub diff_row : Bool → (ℕ → Bool) → Str → List Cell
  unfolding row_cells row_of
  diff_row style is_diff k =
      plain (safe_cell_value k)
      ∷ row_cells style is_diff (row_of art.left_by_key k) (row_of art.right_by_key k)
          (length art.ordered_cols) 0

  unfoldable pub header_cells : Str → Str → List Str → List Cell
  header_cells fn1 fn2 [] = []
  header_cells fn1 fn2 (c ∷ cs) =
      plain (c ++ codes "（" ++ fn1 ++ codes "）")
      ∷ plain (c ++ codes "（" ++ fn2 ++ codes "）")
      ∷ header_cells fn1 fn2 cs

  abbrev pub no_change : List Cell
  no_change = plain (codes "无变动项目") ∷ []

  abbrev pub no_diff : Cache → Marks → Scan
  no_diff cache marks = record { cache = cache; marks = marks; has_diff = false }

  -- A row that did not change is left out; the first row written has the header before it.
  unfoldable pub write_row :
      Bool → Bool → List Cell → List Cell → List (List Cell) → List (List Cell)
  write_row has_diff first_written header row rest =
      if not has_diff then rest else if first_written then row ∷ rest else header ∷ row ∷ rest

  -- The rows from here on, by the keys left, the variables firstWritten and cache, and the marks.
  unfoldable pub write_keys : Bool → List Cell → List Str → Bool → Cache → Marks → List (List Cell)
  unfolding compare_cols diff_row reset_mask write_row
  write_keys style header [] first_written cache marks =
      if first_written then [] else no_change ∷ []
  write_keys style header (k ∷ ks) first_written cache marks =
      let s =
        compare_cols (row_of art.left_by_key k) (row_of art.right_by_key k)
          (length art.ordered_cols) 0 (no_diff cache marks) in
      let row = diff_row style (diff_mask_get s.marks.mask) k in
      let rest =
        write_keys style header ks (first_written || s.has_diff) s.cache (reset_mask s.marks) in
      write_row s.has_diff first_written header row rest

  abbrev file_label : Str → Str → Str
  file_label name fallback = if is_blank name then fallback else trim_space name

  unfoldable pub header : Str → Str → List Cell
  unfolding header_cells
  header file1_name file2_name =
      plain art.key
      ∷ header_cells (file_label file1_name (codes "文件1")) (file_label file2_name (codes "文件2"))
          art.ordered_cols

  -- writeDiffSideBySideStream; `style` says that redStyle is positive.
  unfoldable pub write_diff_side_by_side : Str → Str → Bool → List (List Cell)
  unfolding write_keys header
  write_diff_side_by_side file1_name file2_name style =
      if length art.common_keys == 0
      then no_change ∷ []
      else write_keys style (header file1_name file2_name) art.common_keys false []
          (record { mask = zero_words (diff_mask_words (length art.ordered_cols)); dirty = [] })
