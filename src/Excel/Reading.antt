-- ===== src/Excel/Reading.antt =====
-- loadKeyedSheetXLSX of gobackend/excelcmp/keyedread.go and readXLSXFirstSheetTable of readxlsx.go.
-- What the library excelize makes of a file is given: its sheets, and the rows of the first.
pub mod Streaming
use guangyang.Prelude.{
  ℕ, zero, suc, ◌+◌, ◌≡◌, refl, Bool, true, false, List, [], ◌∷◌, ◌++◌, Option, none, some, length,
  ◌==◌, if◌then◌else◌,
}
use guangyang.Prelude.Int.{ℤ}
use guangyang.Text.{Str, codes, trim_space, ◌===◌}
use guangyang.Errors.{GoError, new, Result, ok, err}
use guangyang.Excel.KeyedRows.{Row, Table, Keyed, empty, add, add_rows}
use guangyang.Excel.StrMap.{StrMap}
use guangyang.Excel.Columns.{index_of_header}
use guangyang.Excel.Headers.{normalize_headers, pad_row}
use guangyang.Excel.KeyGuess.{Scalars, guess_primary_key_column, rows_to_check}
use guangyang.Excel.Artifacts.{missing_column}

-- The iterator over the rows of a sheet: Next and Columns.
pub data Rows : Type 0 where
  finished : Rows
  broken : GoError → Rows
  row : Row → Rows → Rows

-- A file: it cannot be opened, or has no sheet, or Rows fails on the first, or there are its rows.
pub data Book : Type 0 where
  unreadable : GoError → Book
  no_sheet : Book
  no_rows : GoError → Book
  first_sheet : Rows → Book

-- keyedSheet, with the duplicates that the function returns beside it.
pub record KeyedSheet : Type 0 where
  pub headers : List Str
  pub key : Str
  pub rows_by_key : StrMap Row
  pub dups : List Str

abbrev pub no_rows_sheet : Str → KeyedSheet
no_rows_sheet key = record { headers = []; key = key; rows_by_key = []; dups = [] }

-- The rows peeked at, at most n, and the iterator after them.
unfoldable pub peek_rows : ℕ → ℕ → Rows → Result (List Row × Rows)
peek_rows zero width rows = ok ([], rows)
peek_rows (suc n) width finished = ok ([], finished)
peek_rows (suc n) width (broken e) = err e
peek_rows (suc n) width (row cols rows) = elim (peek_rows n width rows) [
  | err e ↦ err e
  | ok out ↦ ok (pad_row cols width ∷ out.0, out.1)
]

-- The loop over the other rows.
unfoldable pub add_stream : ℕ → ℕ → Rows → Keyed → Result Keyed
add_stream idx width finished s = ok s
add_stream idx width (broken e) s = err e
add_stream idx width (row cols rows) s = add_stream idx width rows (add idx (pad_row cols width) s)

-- `keyed` as the sheet of the headers under the key.
unfoldable pub keyed_sheet : List Str → Str → Result Keyed → Result KeyedSheet
keyed_sheet headers key (err e) = err e
keyed_sheet headers key (ok s) =
    ok (record { headers = headers; key = key; rows_by_key = s.by_key; dups = s.dups })

module _ (scalars : Scalars) (show_list : List Str → Str) (quote : Str → Str) where
  no_key_guessed : GoError
  no_key_guessed = new (codes "无法猜测主键列，请确保包含明显的编号列")

  unfoldable pub guessed : Option Str → Result Str
  unfolding no_key_guessed
  guessed none = err no_key_guessed
  guessed (some k) = ok k

  -- keyUsed
  unfoldable pub key_used : Bool → Str → ℤ → Table → Result Str
  unfolding guessed
  key_used false key check_rows peek = ok (trim_space key)
  key_used true key check_rows peek = guessed (guess_primary_key_column scalars peek check_rows)

  -- The column of the key in the headers.
  unfoldable pub key_index : List Str → Result Str → Result (Str × ℕ)
  key_index headers (err e) = err e
  key_index headers (ok key) =
      if key === [] then err (new (codes "主键列为空")) else elim (index_of_header headers key) [
        | none ↦ err (missing_column show_list quote key)
        | some i ↦ ok (key, i)
      ]

  unfoldable pub load_with : List Str → List Row → Rows → Result (Str × ℕ) → Result KeyedSheet
  unfolding add_stream keyed_sheet
  load_with headers peek rows (err e) = err e
  load_with headers peek rows (ok (key, idx)) =
      keyed_sheet headers key (add_stream idx (length headers) rows (add_rows idx peek empty))

  unfoldable pub load_rest :
      ℤ → Str → Bool → List Str → Result (List Row × Rows) → Result KeyedSheet
  unfolding key_index key_used load_with
  load_rest check_rows key allow_guess headers (err e) = err e
  load_rest check_rows key allow_guess headers (ok (peek, rows)) = load_with headers peek rows (
      key_index headers
        (key_used allow_guess key check_rows (record { headers = headers; rows = peek })))

  -- loadKeyedSheetXLSX
  unfoldable pub load_keyed_sheet : Book → ℤ → Str → Bool → Result KeyedSheet
  unfolding load_rest peek_rows
  load_keyed_sheet (unreadable e) check_rows key allow_guess = err e
  load_keyed_sheet no_sheet check_rows key allow_guess = ok (no_rows_sheet key)
  load_keyed_sheet (no_rows e) check_rows key allow_guess = err e
  load_keyed_sheet (first_sheet finished) check_rows key allow_guess = ok (no_rows_sheet key)
  load_keyed_sheet (first_sheet (broken e)) check_rows key allow_guess = err e
  load_keyed_sheet (first_sheet (row cols rows)) check_rows key allow_guess =
      let headers = normalize_headers cols in
      load_rest check_rows key allow_guess headers
        (peek_rows (rows_to_check check_rows) (length headers) rows)

abbrev cons_row : Row → Result (List Row) → Result (List Row)
cons_row r (ok rs) = ok (r ∷ rs)
cons_row r (err e) = err e

-- The rows of readXLSXFirstSheetTable: none is kept where there is no header.
unfoldable pub table_rows : ℕ → Rows → Result (List Row)
table_rows width finished = ok []
table_rows width (broken e) = err e
table_rows width (row cols rows) =
    let rest = table_rows width rows in
    if width == 0 then rest else cons_row (pad_row cols width) rest

unfoldable pub table_of : List Str → Result (List Row) → Result Table
table_of headers (err e) = err e
table_of headers (ok rows) = ok (record { headers = headers; rows = rows })

-- readXLSXFirstSheetTable
unfoldable pub read_first_sheet : Book → Result Table
unfolding table_rows table_of
read_first_sheet (unreadable e) = err e
read_first_sheet no_sheet = ok (record { headers = []; rows = [] })
read_first_sheet (no_rows e) = err e
read_first_sheet (first_sheet finished) = ok (record { headers = []; rows = [] })
read_first_sheet (first_sheet (broken e)) = err e
read_first_sheet (first_sheet (row cols rows)) =
    let headers = normalize_headers cols in table_of headers (table_rows (length headers) rows)
