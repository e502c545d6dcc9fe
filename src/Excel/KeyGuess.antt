-- ===== src/Excel/KeyGuess.antt =====
-- GuessPrimaryKeyColumn of gobackend/excelcmp/compare.go, with the tests of normalize.go that it uses.
pub mod Fit
pub mod Best
use guangyang.Prelude.{
  ℕ, zero, suc, ◌+◌, ◌≡◌, refl, Bool, true, false, not, ◌&&◌, ◌||◌, List, [], ◌∷◌, Option, none,
  some, take, length, get_elem?, ltb, ◌==◌, leb, arith, if◌then◌else◌,
}
use guangyang.Prelude.Int.{ℤ, pos, negsuc}
use guangyang.Text.{Str, codes, trim_space, is_blank, to_lower, contains}
use guangyang.Excel.StrMap.{elem}
use guangyang.Excel.KeyedRows.{Row, Table}

-- The classes of package unicode, and strconv.ParseFloat with what isFiniteIntegerFloatString tests.
pub record Scalars : Type 1 where
  pub is_letter : ℕ → Bool
  pub is_digit : ℕ → Bool
  pub F : Type 0
  pub parse_float : Str → Option F
  pub is_beyond : F → Bool  -- f > 9e15 || f < -9e15
  pub is_whole : F → Bool  -- float64(int64(f)) == f

-- primaryKeyCandidates
abbrev pub candidates : List Str
candidates =
    codes "id"
    ∷ codes "编号"
    ∷ codes "编码"
    ∷ codes "资产编号"
    ∷ codes "资产编码"
    ∷ codes "序号"
    ∷ codes "资产号"
    ∷ codes "code"
    ∷ codes "no"
    ∷ codes "序列号"
    ∷ []

unfoldable pub all_digits : Str → Bool
all_digits [] = true
all_digits (c ∷ s) = leb b'0' c && leb c b'9' && all_digits s

abbrev pub some_digits : Str → Bool
some_digits [] = false
some_digits (c ∷ s) = all_digits (c ∷ s)

-- isIntegerLikeString
unfoldable pub is_integer_like : Str → Bool
unfolding all_digits
is_integer_like [] = false
is_integer_like (c ∷ s) = if c == b'-' || c == b'+' then some_digits s else all_digits (c ∷ s)

-- The first rows of the column: none where a cell is missing or blank.
unfoldable pub cell_value : Option Str → Option Str
cell_value none = none
cell_value (some v) = if is_blank v then none else some (trim_space v)

abbrev pub cons_value : Option Str → Option (List Str) → Option (List Str)
cons_value (some v) (some vs) = some (v ∷ vs)
cons_value none vs = none
cons_value (some v) none = none

unfoldable pub column_values : ℕ → List Row → Option (List Str)
unfolding cell_value
column_values col [] = some []
column_values col (row ∷ rows) =
    cons_value (cell_value (get_elem? row col)) (column_values col rows)

-- The loop with the map uniq.
unfoldable pub is_unique : List Str → List Str → Bool
is_unique uniq [] = true
is_unique uniq (v ∷ vs) = not (elem v uniq) && is_unique (v ∷ uniq) vs

abbrev pub if_unique : Option (List Str) → Option (List Str)
if_unique none = none
if_unique (some vs) = if is_unique [] vs then some vs else none

-- The values of a column that may be the key.
unfoldable pub key_values : ℕ → List Row → Option (List Str)
unfolding column_values is_unique
key_values col [] = none
key_values col (row ∷ rows) = if_unique (column_values col (row ∷ rows))

-- `checkRows <= 0` stands for 5.
abbrev pub rows_to_check : ℤ → ℕ
rows_to_check (pos (suc n)) = suc n
rows_to_check _ = 5

unfoldable pub name_score : Str → List Str → ℕ
name_score name [] = 0
name_score name (kw ∷ kws) =
    (if contains (to_lower kw) (to_lower name) then 10 else 0) + name_score name kws

module _ (scalars : Scalars) where
  all_alnum : Str → Bool
  all_alnum [] = true
  all_alnum (r ∷ s) = (scalars.is_letter r || scalars.is_digit r) && all_alnum s

  -- isAlnumUnicode
  unfoldable pub is_alnum : Str → Bool
  unfolding all_alnum
  is_alnum [] = false
  is_alnum (r ∷ s) = all_alnum (r ∷ s)

  whole_number : Option scalars.F → Bool
  whole_number none = false
  whole_number (some f) = not (scalars.is_beyond f) && scalars.is_whole f

  -- isFiniteIntegerFloatString
  unfoldable pub is_finite_integer_float : Str → Bool
  unfolding whole_number
  is_finite_integer_float s = whole_number (scalars.parse_float s)

  unfoldable pub all_pkish : List Str → Bool
  unfolding is_integer_like is_finite_integer_float is_alnum
  all_pkish [] = true
  all_pkish (v ∷ vs) =
      (is_integer_like v || is_finite_integer_float v || is_alnum v) && all_pkish vs

  unfoldable pub score : Str → List Str → ℕ
  unfolding name_score all_pkish
  score name vs = name_score name candidates + (if all_pkish vs then 5 else 0)

  -- bestCol and bestScore; no column yet is a score of -1.
  abbrev pub Best : Type 0
  Best = Option (Str × ℕ)

  unfoldable pub pick : Str → ℕ → Best → Best
  pick name s none = some (name, s)
  pick name s (some (col, points)) = if ltb points s then some (name, s) else some (col, points)

  unfoldable pub better : Str → Option (List Str) → Best → Best
  unfolding score pick
  better name none best = best
  better name (some vs) best = pick name (score name vs) best

  -- The loop over the headers, from the i-th column.
  unfoldable pub best_column : ℕ → List Str → List Row → Best → Best
  unfolding better key_values
  best_column i [] rows best = best
  best_column i (name ∷ names) rows best =
      best_column (suc i) names rows (better name (key_values i rows) best)

  unfoldable pub chosen : Best → Option Str
  chosen none = none
  chosen (some ([], points)) = none
  chosen (some (c ∷ col, points)) = some (c ∷ col)

  -- GuessPrimaryKeyColumn, for a table that is not nil.
  unfoldable pub guess_primary_key_column : Table → ℤ → Option Str
  unfolding best_column chosen
  guess_primary_key_column tbl check_rows =
      chosen (best_column 0 tbl.headers (take (rows_to_check check_rows) tbl.rows) none)
