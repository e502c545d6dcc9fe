-- ===== src/Tests/Excel.antt =====
-- The theorems on the comparison, applied to two small tables.
use mathlib.Core.List.{Permᴰ}
use guangyang.Prelude.{map, ◌≤◌, ◌≡◌, refl, true, not, ◌&&◌, List, [], ◌∷◌, some, length, arith}
use guangyang.Text.{Str, codes, ◌===◌, trim_space, is_blank}
use guangyang.Errors.{ok}
use guangyang.Excel.StrMap.{StrMap, lookup, assign, elem, keys, has}
use guangyang.Excel.KeyedRows.{Row, Table, build_key_row_map}
use guangyang.Excel.KeyedRows.Unique.{
  first_row, repeats, is_nil, build_key_row_map-first, build_key_row_map-dups,
  build_key_row_map-bound,
}
use guangyang.Excel.Columns.{ordered_union_cols, header_index_map, aligned_column_indices}
use guangyang.Excel.Artifacts.{Artifacts, compare_artifacts_from_maps}
use guangyang.Excel.Artifacts.Facts.{
  compare_artifacts_from_maps-partition, compare_artifacts_from_maps-order,
}
use guangyang.Excel.Sorting.{sort_strings}
use guangyang.Excel.Diff.{write_diff_side_by_side, header, plain, row_of}
use guangyang.Excel.KeyedSheet.{write_simple_keyed_sheet}
use guangyang.Excel.KeyedSheet.Complete.{
  fitted, write_simple_keyed_sheet-added, write_simple_keyed_sheet-removed,
}
use guangyang.Excel.Diff.Refine.{changed_rows, sheet_of, write_diff_side_by_side-changed_rows}

-- The second row has the key of the first.
abbrev repeated : Table
repeated = record {
  headers = codes "编号" ∷ codes "数量" ∷ [];
  rows =
      (codes "A1" ∷ codes "3" ∷ [])
      ∷ (codes " A1 " ∷ codes "4" ∷ [])
      ∷ (codes "B2" ∷ codes "5" ∷ [])
      ∷ [];
}

build_key_row_map-first_example :
    lookup (codes "A1") (build_key_row_map repeated 0).by_key
    ≡ first_row 0 (codes "A1") repeated.rows
build_key_row_map-first_example = build_key_row_map-first repeated 0 (codes "A1")

build_key_row_map-dups_example :
    is_nil (build_key_row_map repeated 0).dups ≡ not (repeats 0 repeated.rows)
build_key_row_map-dups_example = build_key_row_map-dups repeated 0

build_key_row_map-bound_example : length (build_key_row_map repeated 0).dups ≤ 10
build_key_row_map-bound_example = build_key_row_map-bound repeated 0

abbrev headers : List Str
headers = codes "k" ∷ codes "n" ∷ []

abbrev old_rows : StrMap Row
old_rows = (codes "A", codes "A" ∷ codes "1.0" ∷ []) ∷ (codes "B", codes "B" ∷ codes "2" ∷ []) ∷ []

abbrev new_rows : StrMap Row
new_rows = (codes "B", codes "B" ∷ codes "3" ∷ []) ∷ (codes "C", codes "C" ∷ codes "4" ∷ []) ∷ []

-- The same rows in another order.
abbrev old_rows' : StrMap Row
old_rows' = (codes "B", codes "B" ∷ codes "2" ∷ []) ∷ (codes "A", codes "A" ∷ codes "1.0" ∷ []) ∷ []

artifacts_for : StrMap Row → Artifacts
unfolding ◌===◌
artifacts_for m = record {
  key = codes "k";
  reduced_keys = codes "A" ∷ [];
  inc_keys = codes "C" ∷ [];
  red_headers = headers;
  inc_headers = headers;
  ordered_cols = codes "n" ∷ [];
  common_keys = codes "B" ∷ [];
  left_by_key = m;
  right_by_key = new_rows;
  col_idx1 = some 1 ∷ [];
  col_idx2 = some 1 ∷ [];
}

compared :
    compare_artifacts_from_maps headers headers old_rows new_rows (codes "k")
    ≡ ok (artifacts_for old_rows)
unfolding compare_artifacts_from_maps artifacts_for is_blank ◌===◌ trim_space ordered_union_cols
    header_index_map keys lookup elem sort_strings aligned_column_indices assign
compared = refl

compared' :
    compare_artifacts_from_maps headers headers old_rows' new_rows (codes "k")
    ≡ ok (artifacts_for old_rows')
unfolding compare_artifacts_from_maps artifacts_for is_blank ◌===◌ trim_space ordered_union_cols
    header_index_map keys lookup elem sort_strings aligned_column_indices assign
compared' = refl

compare_artifacts_from_maps-partition_example :
    (elem (codes "B") (artifacts_for old_rows).reduced_keys
      ≡ (not (has (codes "B") new_rows) && has (codes "B") old_rows))
    × (elem (codes "B") (artifacts_for old_rows).inc_keys
        ≡ (not (has (codes "B") old_rows) && has (codes "B") new_rows))
    × (elem (codes "B") (artifacts_for old_rows).common_keys
        ≡ (has (codes "B") new_rows && has (codes "B") old_rows))
compare_artifacts_from_maps-partition_example =
    compare_artifacts_from_maps-partition headers headers old_rows new_rows (codes "k") (codes "B")
      (artifacts_for old_rows) compared

compare_artifacts_from_maps-order_example :
    ((artifacts_for old_rows).reduced_keys ≡ (artifacts_for old_rows').reduced_keys)
    × ((artifacts_for old_rows).inc_keys ≡ (artifacts_for old_rows').inc_keys)
    × ((artifacts_for old_rows).common_keys ≡ (artifacts_for old_rows').common_keys)
compare_artifacts_from_maps-order_example =
    compare_artifacts_from_maps-order headers headers old_rows old_rows' new_rows new_rows
      (codes "k") (artifacts_for old_rows) (artifacts_for old_rows')
      (unfold keys in ∣ Permᴰ.swap refl refl ∣₁)
      (unfold keys in ∣ Permᴰ.cons refl (Permᴰ.cons refl Permᴰ.nil) ∣₁) compared compared'

write_diff_side_by_side-changed_rows_example :
    write_diff_side_by_side (artifacts_for old_rows) (codes "old") (codes "new") true
    ≡ sheet_of
        (artifacts_for old_rows)
        true
        (header (artifacts_for old_rows) (codes "old") (codes "new"))
        (changed_rows (artifacts_for old_rows) true (artifacts_for old_rows).common_keys)
write_diff_side_by_side-changed_rows_example =
    write_diff_side_by_side-changed_rows (artifacts_for old_rows) (codes "old") (codes "new") true

write_simple_keyed_sheet-added_example :
    write_simple_keyed_sheet
      (artifacts_for old_rows).inc_headers
      (artifacts_for old_rows).inc_keys
      (artifacts_for old_rows).right_by_key
      (codes "无增加项")
    ≡ map plain headers
      ∷ map (λ k. map plain (fitted headers (row_of new_rows k))) (artifacts_for old_rows).inc_keys
write_simple_keyed_sheet-added_example =
    write_simple_keyed_sheet-added headers headers old_rows new_rows (codes "k") (codes "无增加项")
      (artifacts_for old_rows) compared (unfold artifacts_for in omega arith)
      (unfold artifacts_for in omega arith)

write_simple_keyed_sheet-removed_example :
    write_simple_keyed_sheet
      (artifacts_for old_rows).red_headers
      (artifacts_for old_rows).reduced_keys
      (artifacts_for old_rows).left_by_key
      (codes "无减少项")
    ≡ map plain headers
      ∷ map
          (λ k. map plain (fitted headers (row_of old_rows k)))
          (artifacts_for old_rows).reduced_keys
write_simple_keyed_sheet-removed_example =
    write_simple_keyed_sheet-removed headers headers old_rows new_rows (codes "k") (codes "无减少项")
      (artifacts_for old_rows) compared (unfold artifacts_for in omega arith)
      (unfold artifacts_for in omega arith)
