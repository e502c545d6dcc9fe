-- ===== src/Excel/Export/Sheets.antt =====
-- The names of the three sheets.
use guangyang.Prelude.{◌≡◌, ap, ◌∙◌, List, [], ◌∷◌, ◌++◌, Option, some, arith}
use guangyang.Text.{Str, codes}
use guangyang.Excel.SheetName.{sheet_base_name, unique_sheet_name}
use guangyang.Excel.SheetName.Unique.{GoodName, unique_sheet_name-GoodName}
use guangyang.Excel.Export.{SheetNames, named_as, named, sheet_names}

named-some :
    (name : Str) (used : List Str) (next : Str → List Str → Option SheetNames) (s : Str)
    → unique_sheet_name name used ≡ some (s, s ∷ used)
    → named name used next ≡ next s (s ∷ used)
unfolding named named_as
named-some name used next s e = ap (λ o. named_as o next) e

-- For any names of the two files there are three sheet names, each with 31 characters at most, none
-- that Excel forbids, and different from the names before it.
pub sheet_names-GoodName :
    (file1_name file2_name : Str)
    → (names : SheetNames) × (sheet_names file1_name file2_name ≡ some names)
      × GoodName [] names.inc
      × GoodName (names.inc ∷ []) names.red
      × GoodName (names.red ∷ names.inc ∷ []) names.diff
unfolding sheet_names
sheet_names-GoodName file1_name file2_name =
    let title = sheet_base_name file2_name ++ codes "相比" ++ sheet_base_name file1_name in
    let a = unique_sheet_name-GoodName (title ++ codes "增加") [] (omega arith) in
    let b = unique_sheet_name-GoodName (title ++ codes "减少") (a.0 ∷ []) (omega arith) in
    let c = unique_sheet_name-GoodName (codes "变动项目") (b.0 ∷ a.0 ∷ []) (omega arith) in
    (
      record { inc = a.0; red = b.0; diff = c.0 },
      named-some _ _ _ _ a.1 ∙ named-some _ _ _ _ b.1 ∙ named-some _ _ _ _ c.1,
      a.2,
      b.2,
      c.2,
    )
