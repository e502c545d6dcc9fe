-- ===== src/Excel/Export/Tables.antt =====
-- The export reads its files row by row: it compares them as CompareArtifacts compares their tables.
use guangyang.Prelude.{
  ℕ, ◌<◌, ◌≡◌, refl, ap, ◌∙◌, true, false, List, [], Option, none, some, length, ltb, Bool-cases,
  Option-cases, inl, inr,
}
use guangyang.Prelude.Int.{pos}
use guangyang.Text.{Str, is_blank, trim_space, ◌===◌}
use guangyang.Errors.{GoError, Result, ok, err}
use guangyang.Excel.KeyedRows.{Table, build_key_row_map}
use guangyang.Excel.KeyGuess.{Scalars, guess_primary_key_column}
use guangyang.Excel.Columns.{index_of_header}
use guangyang.Excel.Artifacts.{
  compare_artifacts, compare_at, compare_keyed, compare_artifacts_from_maps, missing_column,
}
use guangyang.Excel.Reading.{
  Book, KeyedSheet, read_first_sheet, load_keyed_sheet, key_used, guessed, key_index,
}
use guangyang.Excel.Reading.Streaming.{by_table, table_sheet, load_keyed_sheet-table}
use guangyang.Excel.Export.{compare_books, second_book, checked, compare_sheets}

abbrev pub ok_part : {A : Type 0} → Result A → Option A
ok_part (ok a) = some a
ok_part (err e) = none

module _ (scalars : Scalars) (show_list : List Str → Str) (quote : Str → Str) where
  -- The sheet of a table whose key is in a column, or that has no such column.
  sheet_at : Table → Str → ℕ → KeyedSheet
  sheet_at tbl key i = record {
    headers = tbl.headers;
    key = key;
    rows_by_key = (build_key_row_map tbl i).by_key;
    dups = (build_key_row_map tbl i).dups;
  }

  module _ (tbl : Table) (key : Str) (named : key === [] ≡ false) where
    found-sheet :
        (i : ℕ)
        → index_of_header tbl.headers key ≡ some i
        → by_table scalars show_list quote tbl
            (key_index scalars show_list quote tbl.headers (ok key))
          ≡ ok (sheet_at tbl key i)
    unfolding by_table key_index sheet_at
    found-sheet i e = rw (named, e) refl

    missing-sheet :
        index_of_header tbl.headers key ≡ none
        → (e : GoError) × (by_table scalars show_list quote tbl
              (key_index scalars show_list quote tbl.headers (ok key))
            ≡ err e)
    unfolding by_table key_index
    missing-sheet e = (missing_column show_list quote key, rw (named, e) refl)

  -- The two loads, by what they give, against CompareArtifacts.
  module _ (book1 book2 : Book) (t1 t2 : Table) (key : Str) (blank : is_blank key ≡ false) where
    abbrev load1 : Result KeyedSheet
    load1 = load_keyed_sheet scalars show_list quote book1 (pos 5) [] true

    abbrev load2 : Result KeyedSheet
    load2 = load_keyed_sheet scalars show_list quote book2 (pos 0) key false

    abbrev Same : Type 0
    Same =
        ok_part (compare_books scalars show_list quote book1 book2)
        ≡ ok_part (compare_artifacts show_list quote t1 t2 key)

    first-missing : (e : GoError) → load1 ≡ err e → index_of_header t1.headers key ≡ none → Same
    unfolding compare_books second_book checked compare_artifacts compare_at
    first-missing e h i = rw (h, blank, i) refl

    second-missing :
        (e : GoError) (i : ℕ)
        → load1 ≡ ok (sheet_at t1 key i)
        → load2 ≡ err e
        → index_of_header t1.headers key ≡ some i
        → index_of_header t2.headers key ≡ none
        → Same
    unfolding compare_books second_book checked compare_sheets compare_artifacts compare_at sheet_at
    second-missing e i h1 h2 i1 i2 =
        elim (Bool-cases (ltb 0 (length (build_key_row_map t1 i).dups))) [
          | inl d ↦ rw (h1, d, blank, i1, i2) refl
          | inr d ↦ rw (h1, d, h2, blank, i1, i2) refl
        ]

    both-found :
        (i j : ℕ)
        → load1 ≡ ok (sheet_at t1 key i)
        → load2 ≡ ok (sheet_at t2 key j)
        → index_of_header t1.headers key ≡ some i
        → index_of_header t2.headers key ≡ some j
        → Same
    unfolding compare_books second_book checked compare_sheets compare_artifacts compare_at
        compare_keyed compare_artifacts_from_maps sheet_at
    both-found i j h1 h2 i1 i2 = elim (Bool-cases (ltb 0 (length (build_key_row_map t1 i).dups))) [
      | inl d ↦ rw (h1, d, blank, i1, i2, d) refl
      | inr d ↦ elim (Bool-cases (ltb 0 (length (build_key_row_map t2 j).dups))) [
        | inl d' ↦ rw (h1, d, h2, d', blank, i1, i2, d, d') refl
        | inr d' ↦ rw (h1, d, h2, d', i1, i2, d, d', blank) refl
      ]
    ]

  -- The first file's key column is guessed from its table: either both ways find the same artifacts, or
  -- both report an error. The files read as tables with headers, and the key has no space around it.
  pub compare_books-tables :
      (book1 book2 : Book) (t1 t2 : Table) (key : Str)
      → read_first_sheet book1 ≡ ok t1
      → read_first_sheet book2 ≡ ok t2
      → 0 < length t1.headers
      → 0 < length t2.headers
      → guess_primary_key_column scalars t1 (pos 5) ≡ some key
      → key === [] ≡ false
      → trim_space key ≡ key
      → ok_part (compare_books scalars show_list quote book1 book2)
        ≡ ok_part (compare_artifacts show_list quote t1 t2 key)
  unfolding key_used guessed table_sheet is_blank
  compare_books-tables book1 book2 t1 t2 key r1 r2 w1 w2 g named trim =
      let blank : is_blank key ≡ false = ap (λ k. k === []) trim ∙ named in
      let l1 =
        load_keyed_sheet-table scalars show_list quote book1 t1 (pos 5) [] true r1 w1
        ∙ ap
            (λ o.
              by_table scalars show_list quote t1
                (key_index scalars show_list quote t1.headers (guessed scalars show_list quote o)))
            g in
      let l2 =
        load_keyed_sheet-table scalars show_list quote book2 t2 (pos 0) key false r2 w2
        ∙ ap
            (λ k.
              by_table scalars show_list quote t2
                (key_index scalars show_list quote t2.headers (ok k)))
            trim in
      elim (Option-cases (index_of_header t1.headers key)) [
        | inl i1 ↦
            let m = missing-sheet t1 key named i1 in
            first-missing book1 book2 t1 t2 key blank m.0 (l1 ∙ m.1) i1
        | inr (i, i1) ↦
            let s1 = l1 ∙ found-sheet t1 key named i i1 in
            elim (Option-cases (index_of_header t2.headers key)) [
              | inl i2 ↦
                  let m = missing-sheet t2 key named i2 in
                  second-missing book1 book2 t1 t2 key blank m.0 i s1 (l2 ∙ m.1) i1 i2
              | inr (j, i2) ↦
                  both-found book1 book2 t1 t2 key blank i j s1 (l2 ∙ found-sheet t2 key named j i2)
                    i1 i2
            ]
      ]
