-- ===== src/Excel/Reading/Streaming.antt =====
-- Reading a file row by row comes to the same as reading its table and mapping the rows of that.
use guangyang.Prelude.{
  ℕ, zero, suc, ◌<◌, ◌≡◌, refl, sym, ap, ◌∙◌, Bool, true, false, List, [], ◌∷◌, ◌++◌, none, take,
  length, ◌==◌, arith,
}
use guangyang.Prelude.Int.{ℤ}
use guangyang.Text.{Str}
use guangyang.Errors.{Result, ok, err}
use guangyang.Excel.KeyedRows.{Row, Table, Keyed, empty, add, add_rows, build_key_row_map}
use guangyang.Excel.Headers.{normalize_headers, pad_row}
use guangyang.Excel.KeyGuess.{Scalars, chosen, best_column, guess_primary_key_column, rows_to_check}
use guangyang.Excel.Reading.{
  Rows, finished, broken, row, Book, unreadable, no_sheet, no_rows, first_sheet, KeyedSheet,
  peek_rows, add_stream, keyed_sheet, guessed, key_used, key_index, load_with, load_rest,
  load_keyed_sheet, cons_row, table_rows, table_of, read_first_sheet,
}

add_rows-append :
    (idx : ℕ) (xs ys : List Row) (s : Keyed)
    → add_rows idx (xs ++ ys) s ≡ add_rows idx ys (add_rows idx xs s)
unfolding add_rows
add_rows-append idx [] ys s = refl
add_rows-append idx (x ∷ xs) ys s = add_rows-append idx xs ys (add idx x s)

take-take : (n : ℕ) (xs : List Row) → take n (take n xs) ≡ take n xs
take-take zero xs = refl
take-take (suc n) [] = refl
take-take (suc n) (x ∷ xs) = ap (◌∷◌ x) (take-take n xs)

-- The headers that a table has.
abbrev width_of : Result Table → ℕ
width_of (err e) = 0
width_of (ok tbl) = length tbl.headers

width_of-table :
    (headers : List Str) (r : Result (List Row)) (tbl : Table)
    → table_of headers r ≡ ok tbl
    → length headers ≡ length tbl.headers
unfolding table_of
width_of-table headers (err e) tbl h = absurd (cc)
width_of-table headers (ok rs) tbl h = ap width_of h

module _ (width : ℕ) (wide : width == 0 ≡ false) where
  -- The rows of a table that starts with a row.
  table_rows-row :
      (cols : Row) (rows : Rows) (rs : List Row)
      → table_rows width (row cols rows) ≡ ok rs
      → (rest : List Row) × (table_rows width rows ≡ ok rest) × (rs ≡ pad_row cols width ∷ rest)
  unfolding table_rows
  table_rows-row cols rows rs = rw wide (cons (table_rows width rows) refl)
    where
      cons :
          (r : Result (List Row))
          → table_rows width rows ≡ r
          → cons_row (pad_row cols width) r ≡ ok rs
          → (rest : List Row) × (table_rows width rows ≡ ok rest) × (rs ≡ pad_row cols width ∷ rest)
      cons (ok rest) e h = (rest, e, let g : pad_row cols width ∷ rest ≡ rs = cc in sym g)
      cons (err x) e h = absurd (cc)

  add_stream-rows :
      (idx : ℕ) (rows : Rows) (rs : List Row) (s : Keyed)
      → table_rows width rows ≡ ok rs
      → add_stream idx width rows s ≡ ok (add_rows idx rs s)
  unfolding add_stream table_rows add_rows
  add_stream-rows idx finished rs s h = let e : [] ≡ rs = cc in rw (← e) refl
  add_stream-rows idx (broken x) rs s h = absurd (cc)
  add_stream-rows idx (row cols rows) rs s h =
      let found = table_rows-row cols rows rs h in
      add_stream-rows idx rows found.0 (add idx (pad_row cols width) s) found.1 ∙ rw found.2 refl

  -- What is peeked at is the beginning of the table, and the rest is still to come.
  record Peeked (n : ℕ) (rows : Rows) (rs : List Row) : Type 0 where
    rest : Rows
    later : List Row
    peeked : peek_rows n width rows ≡ ok (take n rs, rest)
    to_come : table_rows width rest ≡ ok later
    whole : rs ≡ take n rs ++ later

  peek_rows-Peeked :
      (n : ℕ) (rows : Rows) (rs : List Row) → table_rows width rows ≡ ok rs → Peeked n rows rs
  unfolding peek_rows table_rows
  peek_rows-Peeked zero rows rs h = record {
    rest = rows;
    later = rs;
    peeked = refl;
    to_come = h;
    whole = refl;
  }
  peek_rows-Peeked (suc n) finished rs h =
      let e : [] ≡ rs = cc in
      rw (← e) (record { rest = finished; later = []; peeked = refl; to_come = refl; whole = refl })
  peek_rows-Peeked (suc n) (broken x) rs h = absurd (cc)
  peek_rows-Peeked (suc n) (row cols rows) rs h =
      let found = table_rows-row cols rows rs h in
      let p = peek_rows-Peeked n rows found.0 found.1 in
      rw found.2 (record {
        rest = p.rest;
        later = p.later;
        peeked = rw p.peeked refl;
        to_come = p.to_come;
        whole = ap (◌∷◌ (pad_row cols width)) p.whole;
      })

module _ (scalars : Scalars) (show_list : List Str → Str) (quote : Str → Str) where
  unfoldable pub by_table : Table → Result (Str × ℕ) → Result KeyedSheet
  by_table tbl (err e) = err e
  by_table tbl (ok (key, idx)) =
      let s = build_key_row_map tbl idx in
      ok (record { headers = tbl.headers; key = key; rows_by_key = s.by_key; dups = s.dups })

  -- The sheet of a table at hand: its key, and buildKeyRowMap of the whole.
  unfoldable pub table_sheet : Table → ℤ → Str → Bool → Result KeyedSheet
  unfolding by_table
  table_sheet tbl check_rows key allow_guess = by_table tbl (
      key_index scalars show_list quote tbl.headers
        (key_used scalars show_list quote allow_guess key check_rows tbl))

  -- The guess looks at the rows to check only.
  key_used-take :
      (guess : Bool) (key : Str) (check_rows : ℤ) (headers : List Str) (rs : List Row)
      → key_used scalars show_list quote guess key check_rows
          (record { headers = headers; rows = take (rows_to_check check_rows) rs })
        ≡ key_used scalars show_list quote guess key check_rows
            (record { headers = headers; rows = rs })
  unfolding key_used guess_primary_key_column
  key_used-take false key check_rows headers rs = refl
  key_used-take true key check_rows headers rs =
      ap
        (λ x.
          guessed scalars show_list quote (chosen scalars (best_column scalars 0 headers x none)))
        (take-take (rows_to_check check_rows) rs)

  load_with-table :
      (headers : List Str) (rs : List Row) (n : ℕ) (rows : Rows)
      (wide : length headers == 0 ≡ false) (p : Peeked (length headers) wide n rows rs)
      (used : Result (Str × ℕ))
      → load_with scalars show_list quote headers (take n rs) p.rest used
        ≡ by_table (record { headers = headers; rows = rs }) used
  unfolding load_with by_table build_key_row_map keyed_sheet
  load_with-table headers rs n rows wide p (err e) = refl
  load_with-table headers rs n rows wide p (ok (key, idx)) =
      let all : add_stream idx (length headers) p.rest (add_rows idx (take n rs) empty)
          ≡ ok (add_rows idx rs empty) =
        add_stream-rows (length headers) wide idx p.rest p.later _ p.to_come
        ∙ ap ok (
            sym (add_rows-append idx (take n rs) p.later empty)
            ∙ ap (λ x. add_rows idx x empty) (sym p.whole)) in
      rw all refl

  first_sheet-table :
      (headers : List Str) (rows : Rows) (tbl : Table) (check_rows : ℤ) (key : Str) (guess : Bool)
      (r : Result (List Row))
      → 0 < length headers
      → table_rows (length headers) rows ≡ r
      → table_of headers r ≡ ok tbl
      → load_rest scalars show_list quote check_rows key guess headers
          (peek_rows (rows_to_check check_rows) (length headers) rows)
        ≡ table_sheet tbl check_rows key guess
  unfolding load_rest table_sheet table_of
  first_sheet-table headers rows tbl check_rows key guess (err e) w read h = absurd (cc)
  first_sheet-table headers rows tbl check_rows key guess (ok rs) w read h =
      let wide : length headers == 0 ≡ false = ground arith in
      let n = rows_to_check check_rows in
      let p = peek_rows-Peeked (length headers) wide n rows rs read in
      let same : ◌≡◌ {A = Table} (record { headers = headers; rows = rs }) tbl = cc in
      rw (← same, p.peeked, key_used-take guess key check_rows headers rs)
        (load_with-table headers rs n rows wide p _)

  -- For a file whose first sheet reads as a table with at least one header: reading it row by row,
  -- with a guess from the first rows or with a given key, gives the sheet of that table, or the error
  -- that the table gives.
  pub load_keyed_sheet-table :
      (book : Book) (tbl : Table) (check_rows : ℤ) (key : Str) (allow_guess : Bool)
      → read_first_sheet book ≡ ok tbl
      → 0 < length tbl.headers
      → load_keyed_sheet scalars show_list quote book check_rows key allow_guess
        ≡ table_sheet tbl check_rows key allow_guess
  unfolding load_keyed_sheet read_first_sheet table_sheet
  load_keyed_sheet-table (unreadable e) tbl check_rows key guess h w = absurd (cc)
  load_keyed_sheet-table no_sheet tbl check_rows key guess h w =
      absurd (let e = ap (width_of) h in omega arith)
  load_keyed_sheet-table (no_rows e) tbl check_rows key guess h w = absurd (cc)
  load_keyed_sheet-table (first_sheet finished) tbl check_rows key guess h w =
      absurd (let e = ap (width_of) h in omega arith)
  load_keyed_sheet-table (first_sheet (broken e)) tbl check_rows key guess h w = absurd (cc)
  load_keyed_sheet-table (first_sheet (row cols rows)) tbl check_rows key guess h w =
      let headers = normalize_headers cols in
      let e = width_of-table headers (table_rows (length headers) rows) tbl h in
      first_sheet-table headers rows tbl check_rows key guess _ (omega arith) refl h
