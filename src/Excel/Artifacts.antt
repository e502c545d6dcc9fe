-- ===== src/Excel/Artifacts.antt =====
-- compareArtifactsFromMaps and CompareArtifacts of gobackend/excelcmp/compare.go. A range over a Go map
-- takes the keys in any order: here in the order of the association list.
pub mod Facts
use guangyang.Prelude.{
  ℕ, ◌≡◌, Bool, true, false, List, [], ◌∷◌, ◌++◌, Option, none, some, not, ltb, length,
  if◌then◌else◌,
}
use guangyang.Text.{Str, codes, is_blank}
use guangyang.Errors.{GoError, new, Result, ok, err}
use guangyang.Excel.StrMap.{StrMap, has, keys, keep}
use guangyang.Excel.KeyedRows.{Row, Table, Keyed, build_key_row_map}
use guangyang.Excel.Sorting.{sort_strings}
use guangyang.Excel.Columns.{
  index_of_header, header_index_map, aligned_column_indices, ordered_union_cols,
}

pub record Artifacts : Type 0 where
  pub key : Str
  pub reduced_keys : List Str
  pub inc_keys : List Str
  pub red_headers : List Str
  pub inc_headers : List Str
  pub ordered_cols : List Str
  pub common_keys : List Str
  pub left_by_key : StrMap Row
  pub right_by_key : StrMap Row
  pub col_idx1 : List (Option ℕ)
  pub col_idx2 : List (Option ℕ)

-- compareArtifactsFromMaps
unfoldable pub compare_artifacts_from_maps :
    List Str → List Str → StrMap Row → StrMap Row → Str → Result Artifacts
unfolding keep
compare_artifacts_from_maps headers1 headers2 m1 m2 key =
    let cols = ordered_union_cols headers1 headers2 key in
    if is_blank key
    then err (new (codes "主键列为空"))
    else ok (record {
      key = key;
      reduced_keys = sort_strings (keep (λ k. not (has k m2)) (keys m1));
      inc_keys = sort_strings (keep (λ k. not (has k m1)) (keys m2));
      red_headers = headers1;
      inc_headers = headers2;
      ordered_cols = cols;
      common_keys = sort_strings (keep (λ k. has k m2) (keys m1));
      left_by_key = m1;
      right_by_key = m2;
      col_idx1 = aligned_column_indices cols (header_index_map headers1);
      col_idx2 = aligned_column_indices cols (header_index_map headers2);
    })

-- fmt.Errorf on the duplicates of one file: `shown` is what %v prints of the list.
unfoldable pub duplicate_keys : Str → Str → Str → GoError
duplicate_keys file key shown =
    new (file ++ codes "主键列“" ++ key ++ codes "”存在重复值（示例: " ++ shown ++ codes "），请先去重或修正后再比对")

-- What fmt prints of a list (%v) and of a quoted string (%q) is a parameter.
module _ (show_list : List Str → Str) (quote : Str → Str) where
  unfoldable pub missing_column : Str → GoError
  missing_column key = new (codes "Excel文件中必须同时包含" ++ quote key ++ codes "列")

  unfoldable pub compare_keyed : Table → Table → Str → Keyed → Keyed → Result Artifacts
  unfolding compare_artifacts_from_maps duplicate_keys
  compare_keyed file1 file2 key s1 s2 =
      if ltb 0 (length s1.dups)
      then err (duplicate_keys (codes "文件1") key (show_list s1.dups))
      else if ltb 0 (length s2.dups)
      then err (duplicate_keys (codes "文件2") key (show_list s2.dups))
      else compare_artifacts_from_maps file1.headers file2.headers s1.by_key s2.by_key key

  unfoldable pub compare_at : Table → Table → Str → Option ℕ → Option ℕ → Result Artifacts
  unfolding compare_keyed missing_column
  compare_at file1 file2 key (some k1) (some k2) =
      compare_keyed file1 file2 key (build_key_row_map file1 k1) (build_key_row_map file2 k2)
  compare_at file1 file2 key none _ = err (missing_column key)
  compare_at file1 file2 key (some k1) none = err (missing_column key)

  -- CompareArtifacts, for tables that are not nil.
  unfoldable pub compare_artifacts : Table → Table → Str → Result Artifacts
  unfolding compare_at
  compare_artifacts file1 file2 key =
      if is_blank key
      then err (new (codes "主键列为空"))
      else compare_at file1 file2 key (index_of_header file1.headers key)
          (index_of_header file2.headers key)
