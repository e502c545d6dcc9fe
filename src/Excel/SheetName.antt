-- ===== src/Excel/SheetName.antt =====
-- gobackend/excelcmp/sheetname.go: the names of the sheets. The set of used names is a list.
pub mod Suffix
pub mod Chars
pub mod Unique
use guangyang.Prelude.{
  ℕ, zero, suc, ◌-◌, Bool, List, [], ◌∷◌, ◌++◌, map, Option, none, some, ltb, leb, ◌==◌, length,
  take, if◌then◌else◌, ◌≡◌, refl,
}
use guangyang.Text.{Str, codes, trim_space, ◌===◌}
use guangyang.Text.Path.{base}
use guangyang.Text.Decimal.{format_nat}
use guangyang.Excel.StrMap.{elem}

-- The place of the last `c`, where `here` is the place of the first character, and `found` that of the
-- last `c` before.
unfoldable pub last_index_from : ℕ → ℕ → Option ℕ → Str → Option ℕ
last_index_from c here found [] = found
last_index_from c here found (d ∷ s) =
    last_index_from c (suc here) (if d == c then some here else found) s

-- name[:dot] for a dot that is not the first character.
unfoldable pub cut_at : Str → Option ℕ → Str
cut_at name none = name
cut_at name (some dot) = if ltb 0 dot then take dot name else name

unfoldable pub nonempty_or : Str → Str → Str
unfolding ◌===◌
nonempty_or fallback s = if s === [] then fallback else s

-- sheetBaseName
unfoldable pub sheet_base_name : Str → Str
unfolding last_index_from cut_at nonempty_or base trim_space ◌===◌
sheet_base_name filename =
    let name = base (trim_space filename) in
    if trim_space filename === []
    then codes "文件"
    else nonempty_or (codes "文件") (trim_space (cut_at name (last_index_from b'.' 0 none name)))

-- trimRunes
unfoldable pub trim_runes : Str → ℕ → Str
trim_runes s n = if leb n 0 then [] else if leb (length s) n then s else take n s

-- strings.ReplaceAll(s, ch, "_") for one character.
unfoldable pub replace_char : ℕ → Str → Str
replace_char ch s = map (λ c. if c == ch then b'_' else c) s

-- The loop over the characters that Excel forbids.
unfoldable pub replace_chars : List ℕ → Str → Str
unfolding replace_char
replace_chars [] s = s
replace_chars (ch ∷ chs) s = replace_chars chs (replace_char ch s)

abbrev pub forbidden : List ℕ
forbidden = b':' ∷ b'\\' ∷ b'/' ∷ b'?' ∷ b'*' ∷ b'[' ∷ b']' ∷ []

-- safeSheetName
unfoldable pub safe_sheet_name : Str → Str
unfolding nonempty_or replace_chars trim_runes trim_space
safe_sheet_name name =
    let s = replace_chars forbidden (nonempty_or (codes "Sheet") (trim_space name)) in
    if ltb 31 (length s) then trim_runes s 31 else s

-- The name that is tried with the number `i`.
unfoldable pub candidate : Str → ℕ → Str
unfolding trim_runes
candidate name i =
    let suffix = b'_' ∷ format_nat i in
    let max_len = if ltb (31 - length suffix) 1 then 1 else 31 - length suffix in
    (if ltb max_len (length name) then trim_runes name max_len else name) ++ suffix

-- The loop of uniqueSheetName, with fuel; `none` means that the fuel ran out. The result is the name
-- with the set that has it.
unfoldable pub unique_from : ℕ → Str → List Str → Str → ℕ → Option (Str × List Str)
unique_from zero name used cand i = none
unique_from (suc fuel) name used cand i =
    let next = unique_from fuel name used (candidate name i) (suc i) in
    if elem cand used then next else some (cand, cand ∷ used)

-- uniqueSheetName; a name is found among those tried first, one more than the used names and another.
unfoldable pub unique_sheet_name : Str → List Str → Option (Str × List Str)
unfolding unique_from safe_sheet_name
unique_sheet_name name used =
    let safe = safe_sheet_name name in unique_from (suc (suc (length used))) safe used safe 2

base_name_example : sheet_base_name (codes "/tmp/a.b.xlsx") ≡ codes "a.b"
unfolding sheet_base_name
base_name_example = refl

safe_example : safe_sheet_name (codes " a/b[1] ") ≡ codes "a_b_1_"
unfolding safe_sheet_name ◌===◌
safe_example = refl

unique_example :
    unique_sheet_name (codes "x") (codes "x_2" ∷ codes "x" ∷ [])
    ≡ some (codes "x_3", codes "x_3" ∷ codes "x_2" ∷ codes "x" ∷ [])
unfolding unique_sheet_name ◌===◌ trim_space elem format_nat candidate
unique_example = refl
