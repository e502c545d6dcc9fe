-- ===== src/Tests/Sheets.antt =====
-- The theorems on reading and on the sheets, applied to a small file.
use guangyang.Prelude.{
  ◌≡◌, refl, true, false, ◌&&◌, List, [], ◌∷◌, ◌++◌, none, some, leb, arith, take,
}
use guangyang.Prelude.Int.{pos}
use guangyang.Text.{Str, codes, trim_space, is_blank, ◌===◌, to_lower, contains}
use guangyang.Errors.{ok}
use guangyang.Excel.StrMap.{lookup, assign, elem}
use guangyang.Excel.KeyedRows.{Table}
use guangyang.Excel.Headers.{normalize_headers, pad_row}
use guangyang.Excel.KeyGuess.{Scalars, guess_primary_key_column, rows_to_check, key_values, score}
use guangyang.Excel.KeyGuess.Best.{BestColumn, guess_primary_key_column-BestColumn}
use guangyang.Excel.Reading.{
  Book, first_sheet, row, finished, read_first_sheet, load_keyed_sheet, table_rows,
}
use guangyang.Excel.Reading.Streaming.{table_sheet, load_keyed_sheet-table}
use guangyang.Excel.Artifacts.{compare_artifacts}
use guangyang.Excel.SheetName.{unique_sheet_name}
use guangyang.Excel.SheetName.Unique.{GoodName, unique_sheet_name-GoodName}
use guangyang.Excel.Export.{SheetNames, sheet_names, compare_books}
use guangyang.Excel.Export.Sheets.{sheet_names-GoodName}
use guangyang.Excel.Export.Tables.{ok_part, compare_books-tables}

unique_sheet_name-GoodName_example :
    (s : Str) × (unique_sheet_name (codes "a:b") (codes "a_b" ∷ [])
      ≡ some (s, s ∷ codes "a_b" ∷ []))
    × GoodName (codes "a_b" ∷ []) s
unique_sheet_name-GoodName_example =
    unique_sheet_name-GoodName (codes "a:b") (codes "a_b" ∷ []) (omega arith)

sheet_names-GoodName_example :
    (names : SheetNames) × (sheet_names (codes "old.xlsx") (codes "new.xlsx") ≡ some names)
    × GoodName [] names.inc
    × GoodName (names.inc ∷ []) names.red
    × GoodName (names.red ∷ names.inc ∷ []) names.diff
sheet_names-GoodName_example = sheet_names-GoodName (codes "old.xlsx") (codes "new.xlsx")

abbrev raw : List Str
raw = codes " id " ∷ [] ∷ codes "id" ∷ []

-- Letters and digits of ASCII, and no decimal fractions.
abbrev ascii : Scalars
ascii = record {
  is_letter = λ c. leb b'a' c && leb c b'z';
  is_digit = λ c. leb b'0' c && leb c b'9';
  F = Unit;
  parse_float = λ _. none;
  is_beyond = λ _. false;
  is_whole = λ _. true;
}

abbrev join : List Str → Str
join [] = []
join (s ∷ ss) = s ++ join ss

-- A file with the columns n and id, whose second row has a cell too many.
abbrev book : Book
book = first_sheet (
    row (codes "n" ∷ codes "id" ∷ [])
      (row (codes "5" ∷ codes "a1" ∷ []) (row (codes "5" ∷ codes "b2" ∷ codes "x" ∷ []) finished)))

abbrev table : Table
table = record {
  headers = codes "n" ∷ codes "id" ∷ [];
  rows = (codes "5" ∷ codes "a1" ∷ []) ∷ (codes "5" ∷ codes "b2" ∷ []) ∷ [];
}

read : read_first_sheet book ≡ ok table
unfolding read_first_sheet normalize_headers lookup assign is_blank trim_space ◌===◌ table_rows
    pad_row
read = refl

guessed : guess_primary_key_column ascii table (pos 5) ≡ some (codes "id")
unfolding guess_primary_key_column key_values elem is_blank trim_space ◌===◌ score contains to_lower
guessed = refl

guess_primary_key_column-BestColumn_example :
    BestColumn ascii table.headers (take (rows_to_check (pos 5)) table.rows) (codes "id")
guess_primary_key_column-BestColumn_example =
    guess_primary_key_column-BestColumn ascii table (pos 5) (codes "id") guessed

load_keyed_sheet-table_example :
    load_keyed_sheet ascii join (λ s. s) book (pos 5) [] true
    ≡ table_sheet ascii join (λ s. s) table (pos 5) [] true
load_keyed_sheet-table_example =
    load_keyed_sheet-table ascii join (λ s. s) book table (pos 5) [] true read (omega arith)

trimmed : trim_space (codes "id") ≡ codes "id"
unfolding trim_space
trimmed = refl

compare_books-tables_example :
    ok_part (compare_books ascii join (λ s. s) book book)
    ≡ ok_part (compare_artifacts join (λ s. s) table table (codes "id"))
unfolding ◌===◌
compare_books-tables_example =
    compare_books-tables ascii join (λ s. s) book book table table (codes "id") read read
      (omega arith) (omega arith) guessed refl trimmed
