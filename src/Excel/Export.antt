-- ===== src/Excel/Export.antt =====
-- GenerateCompareExportXLSX of gobackend/excelcmp/export.go: from two files to the workbook, with what
-- the library excelize makes of the files, and the errors of writing the result, given.
pub mod Sheets
pub mod Tables
use guangyang.Prelude.{
  ◌≡◌, Bool, true, false, ◌||◌, List, [], ◌∷◌, ◌++◌, Option, none, some, length, ltb, if◌then◌else◌,
}
use guangyang.Prelude.Int.{ℤ, pos}
use guangyang.Text.{Str, codes, is_blank}
use guangyang.Errors.{GoError, new, wrap, Result, ok, err}
use guangyang.Excel.Artifacts.{Artifacts, compare_artifacts_from_maps, duplicate_keys}
use guangyang.Excel.Diff.{Cell, write_diff_side_by_side}
use guangyang.Excel.KeyGuess.{Scalars}
use guangyang.Excel.KeyedSheet.{write_simple_keyed_sheet}
use guangyang.Excel.Reading.{Book, KeyedSheet, load_keyed_sheet}
use guangyang.Excel.SheetName.{sheet_base_name, unique_sheet_name}

-- The names of the sheets for added rows, removed rows and changes.
pub record SheetNames : Type 0 where
  pub inc : Str
  pub red : Str
  pub diff : Str

-- uniqueSheetName in a row: each name with those used before it.
unfoldable pub named_as :
    Option (Str × List Str) → (Str → List Str → Option SheetNames) → Option SheetNames
named_as none next = none
named_as (some (name, used)) next = next name used

unfoldable pub named : Str → List Str → (Str → List Str → Option SheetNames) → Option SheetNames
unfolding named_as
named name used next = named_as (unique_sheet_name name used) next

unfoldable pub sheet_names : Str → Str → Option SheetNames
unfolding named
sheet_names file1_name file2_name =
    let title = sheet_base_name file2_name ++ codes "相比" ++ sheet_base_name file1_name in
    named (title ++ codes "增加") [] (λ inc used. named (title ++ codes "减少") used (λ red used'.
      named (codes "变动项目") used'
        (λ diff used''. some (record { inc = inc; red = red; diff = diff }))))

-- A sheet of the workbook: its name and rows.
abbrev pub Workbook : Type 0
Workbook = List (Str × List (List Cell))

unfoldable pub sheets : Str → Str → Bool → Artifacts → SheetNames → Workbook
sheets file1_name file2_name style art names =
    (
      names.inc,
      write_simple_keyed_sheet art.inc_headers art.inc_keys art.right_by_key (codes "无增加项"),
    )
    ∷ (
      names.red,
      write_simple_keyed_sheet art.red_headers art.reduced_keys art.left_by_key (codes "无减少项"),
    )
    ∷ (names.diff, write_diff_side_by_side art file1_name file2_name style)
    ∷ []

module _ (scalars : Scalars) (show_list : List Str → Str) (quote : Str → Str) where
  -- A file's sheet, if it can be read and no key is there twice; `key` is the one that the error names.
  unfoldable pub checked : Str → Option Str → Result KeyedSheet → Result KeyedSheet
  checked file key (err e) = err (wrap (codes "读取" ++ file ++ codes "失败: ") e)
  checked file key (ok s) =
      if ltb 0 (length s.dups)
      then err (duplicate_keys file (elim key [ none ↦ s.key | some k ↦ k ]) (show_list s.dups))
      else ok s

  unfoldable pub compare_sheets : KeyedSheet → Result KeyedSheet → Result Artifacts
  compare_sheets s1 (err e) = err e
  compare_sheets s1 (ok s2) =
      compare_artifacts_from_maps s1.headers s2.headers s1.rows_by_key s2.rows_by_key s1.key

  unfoldable pub second_book : Book → Result KeyedSheet → Result Artifacts
  unfolding compare_sheets checked
  second_book book2 (err e) = err e
  second_book book2 (ok s1) = compare_sheets s1 (
      checked (codes "文件2") (some s1.key)
        (load_keyed_sheet scalars show_list quote book2 (pos 0) s1.key false))

  -- The two files read, and the artifacts of their sheets.
  unfoldable pub compare_books : Book → Book → Result Artifacts
  unfolding second_book checked
  compare_books book1 book2 =
      second_book book2 (
        checked (codes "文件1") none (load_keyed_sheet scalars show_list quote book1 (pos 5) [] true))

unfoldable pub workbook_of : Str → Str → Bool → Result Artifacts → Option (Result Workbook)
unfolding sheets sheet_names
workbook_of file1_name file2_name style (err e) = some (err e)
workbook_of file1_name file2_name style (ok art) = elim (sheet_names file1_name file2_name) [
  | none ↦ none
  | some names ↦ some (ok (sheets file1_name file2_name style art names))
]

-- os.MkdirAll, os.Create and WriteTo, with the error of each.
pub record Saving : Type 0 where
  pub mkdir_all : Option GoError
  pub create : Option GoError
  pub write_to : Option GoError

abbrev pub attempt : {A : Type 0} → Str → Option GoError → Result A → Result A
attempt prefix (some e) next = err (wrap prefix e)
attempt prefix none next = next

unfoldable pub saved : Saving → Result Workbook → Result Workbook
saved saving (err e) = err e
saved saving (ok book) = attempt (codes "创建输出目录失败: ") saving.mkdir_all (
    attempt (codes "创建结果文件失败: ") saving.create
      (attempt (codes "写入结果文件失败: ") saving.write_to (ok book)))

unfoldable pub saved_if_named : Saving → Option (Result Workbook) → Option (Result Workbook)
unfolding saved
saved_if_named saving none = none
saved_if_named saving (some r) = some (saved saving r)

module _ (scalars : Scalars) (show_list : List Str → Str) (quote : Str → Str)
    (open_file : Str → Book) where
  -- GenerateCompareExportXLSX: the workbook that it has written, or the error; `none` would be a
  -- search for a sheet name without an end.
  unfoldable pub generate_compare_export_xlsx :
      Saving → Bool → Str → Str → Str → Str → Str → Option (Result Workbook)
  unfolding saved_if_named workbook_of compare_books
  generate_compare_export_xlsx saving style path1 path2 name1 name2 out_path =
      if is_blank path1 || is_blank path2
      then some (err (new (codes "输入文件路径为空")))
      else if is_blank out_path
      then some (err (new (codes "输出路径为空")))
      else saved_if_named saving (
          workbook_of name1 name2 style
            (compare_books scalars show_list quote (open_file path1) (open_file path2)))
