-- ===== src/Excel/KeyGuess/Best.antt =====
-- The guessed key column is the best of those whose first values are there and differ.
use guangyang.Excel.KeyGuess.Fit.{IsFit, key_values-IsFit}
use guangyang.Prelude.{
  ℕ, zero, suc, ◌+◌, ◌≤◌, ◌≡◌, ◌⊎◌, refl, ap, ◌∙◌, List, [], ◌∷◌, Option, none, some, take,
  get_elem?, ltb, arith, Bool-cases, inl, inr,
}
use guangyang.Prelude.Int.{ℤ}
use guangyang.Text.{Str}
use guangyang.Excel.KeyedRows.{Row, Table}
use guangyang.Excel.KeyGuess.{
  Scalars, key_values, rows_to_check, score, pick, better, best_column, chosen,
  guess_primary_key_column,
}

module _ (scalars : Scalars) where
  -- A column of the names, which start at the i-th, that may be the key, with a score.
  record Column (i : ℕ) (names : List Str) (rows : List Row) (c : Str) (p : ℕ) : Type 0 where
    at : ℕ
    values : List Str
    named : get_elem? names at ≡ some c
    fit : key_values (i + at) rows ≡ some values
    points : score scalars c values ≡ p

  -- Scores in order, below them that there is no column yet.
  abbrev rank : Option (Str × ℕ) → ℕ
  rank none = 0
  rank (some (col, points)) = suc points

  same_pair :
      {name c : Str} {s p : ℕ}
      → ◌≡◌ {A = Option (Str × ℕ)} (some (name, s)) (some (c, p))
      → (name ≡ c) × (s ≡ p)
  same_pair {name} {c} {s} {p} h =
      let e : ◌≡◌ {A = Str × ℕ} (name, s) (c, p) = cc in (ap (λ x. x.0) e, ap (λ x. x.1) e)

  pick-source :
      (name : Str) (s : ℕ) (best : Option (Str × ℕ)) (c : Str) (p : ℕ)
      → pick scalars name s best ≡ some (c, p)
      → (best ≡ some (c, p)) ⊎ ((name ≡ c) × (s ≡ p))
  unfolding pick
  pick-source name s none c p = λ h. inr (same_pair h)
  pick-source name s (some (col, points)) c p = elim (Bool-cases (ltb points s)) [
    | inl l ↦ rw l (λ h. inr (same_pair h))
    | inr l ↦ rw l (λ h. inl h)
  ]

  pick-rank :
      (name : Str) (s : ℕ) (best : Option (Str × ℕ))
      → (suc s ≤ rank (pick scalars name s best)) × (rank best ≤ rank (pick scalars name s best))
  unfolding pick
  pick-rank name s none = (omega arith, omega arith)
  pick-rank name s (some (col, points)) = elim (Bool-cases (ltb points s)) [
    | inl l ↦ rw l ((omega arith), ground arith)
    | inr l ↦ rw l ((ground arith), omega arith)
  ]

  better-source :
      (name : Str) (o : Option (List Str)) (best : Option (Str × ℕ)) (c : Str) (p : ℕ)
      → better scalars name o best ≡ some (c, p)
      → (best ≡ some (c, p))
        ⊎ ((vs : List Str) × (name ≡ c) × (o ≡ some vs) × (score scalars name vs ≡ p))
  unfolding better
  better-source name none best c p h = inl h
  better-source name (some vs) best c p h =
      elim (pick-source name (score scalars name vs) best c p h) [
        | inl old ↦ inl old
        | inr new ↦ inr (vs, new.0, refl, new.1)
      ]

  better-rank :
      (name : Str) (o : Option (List Str)) (best : Option (Str × ℕ))
      → rank best ≤ rank (better scalars name o best)
  unfolding better
  better-rank name none best = omega arith
  better-rank name (some vs) best = (pick-rank name (score scalars name vs) best).1

  better-above :
      (name : Str) (o : Option (List Str)) (best : Option (Str × ℕ)) (vs : List Str)
      → o ≡ some vs
      → suc (score scalars name vs) ≤ rank (better scalars name o best)
  unfolding better
  better-above name o best vs e = rw e (pick-rank name (score scalars name vs) best).0

  shift : (m n : ℕ) (rows : List Row) → m ≡ n → key_values m rows ≡ key_values n rows
  shift m n rows e = ap (λ k. key_values k rows) e

  best_column-rank :
      (i : ℕ) (names : List Str) (rows : List Row) (best : Option (Str × ℕ))
      → rank best ≤ rank (best_column scalars i names rows best)
  unfolding best_column
  best_column-rank i [] rows best = omega arith
  best_column-rank i (name ∷ names) rows best =
      let first = better-rank name (key_values i rows) best in
      let rest =
        best_column-rank (suc i) names rows (better scalars name (key_values i rows) best) in
      omega arith

  best_column-above :
      (i : ℕ) (names : List Str) (rows : List Row) (best : Option (Str × ℕ)) (k : ℕ) (name : Str)
      (vs : List Str)
      → get_elem? names k ≡ some name
      → key_values (i + k) rows ≡ some vs
      → suc (score scalars name vs) ≤ rank (best_column scalars i names rows best)
  unfolding best_column
  best_column-above i [] rows best k name vs at fit = absurd (cc)
  best_column-above i (n ∷ names) rows best zero name vs at fit =
      let here =
        better-above n (key_values i rows) best vs (shift i (i + 0) rows (omega arith) ∙ fit) in
      let rest = best_column-rank (suc i) names rows (better scalars n (key_values i rows) best) in
      let same : n ≡ name = cc in rw (← same) (omega arith)
  best_column-above i (n ∷ names) rows best (suc k) name vs at fit =
      best_column-above (suc i) names rows (better scalars n (key_values i rows) best) k name vs at
        (shift (suc i + k) (i + suc k) rows (omega arith) ∙ fit)

  best_column-source :
      (i : ℕ) (names : List Str) (rows : List Row) (best : Option (Str × ℕ)) (c : Str) (p : ℕ)
      → best_column scalars i names rows best ≡ some (c, p)
      → (best ≡ some (c, p)) ⊎ Column i names rows c p
  unfolding best_column
  best_column-source i [] rows best c p h = inl h
  best_column-source i (n ∷ names) rows best c p h =
      elim (best_column-source (suc i) names rows (better scalars n (key_values i rows) best) c p
        h) [
          | inl new ↦ elim (better-source n (key_values i rows) best c p new) [
            | inl old ↦ inl old
            | inr (vs, named, fit, points) ↦ inr (record {
              at = 0;
              values = vs;
              named = ap some named;
              fit = shift (i + 0) i rows (omega arith) ∙ fit;
              points = rw (← named) points;
            })
          ]
          | inr later ↦ inr (record {
            at = suc later.at;
            values = later.values;
            named = later.named;
            fit = shift (i + suc later.at) (suc i + later.at) rows (omega arith) ∙ later.fit;
            points = later.points;
          })
        ]

  -- The column is among those that are fit to be the key, and none of these has a higher score.
  pub record BestColumn (names : List Str) (rows : List Row) (c : Str) : Type 0 where
    pub at : ℕ
    pub values : List Str
    pub named : get_elem? names at ≡ some c
    pub fit : IsFit at rows values
    pub best :
        (k : ℕ) (name : Str) (vs : List Str)
        → get_elem? names k ≡ some name
        → IsFit k rows vs
        → score scalars name vs ≤ score scalars c values

  chosen-source :
      (best : Option (Str × ℕ)) (c : Str)
      → chosen scalars best ≡ some c
      → (p : ℕ) × (best ≡ some (c, p))
  unfolding chosen
  chosen-source none c h = absurd (cc)
  chosen-source (some ([], p)) c h = absurd (cc)
  chosen-source (some (d ∷ col, p)) c h = (p, let e : d ∷ col ≡ c = cc in ap (λ x. some (x, p)) e)

  -- A column that is guessed is in the table; there are rows to look at, each has a cell in the column
  -- that is not blank, and these cells differ even without the space around them; and no other such
  -- column has a higher score.
  pub guess_primary_key_column-BestColumn :
      (tbl : Table) (check_rows : ℤ) (c : Str)
      → guess_primary_key_column scalars tbl check_rows ≡ some c
      → BestColumn tbl.headers (take (rows_to_check check_rows) tbl.rows) c
  unfolding guess_primary_key_column
  guess_primary_key_column-BestColumn tbl check_rows c h =
      let rows = take (rows_to_check check_rows) tbl.rows in
      let best = best_column scalars 0 tbl.headers rows none in
      let found = chosen-source best c h in
      elim (best_column-source 0 tbl.headers rows none c found.0 found.1) [
        | inl neither ↦ absurd (cc)
        | inr col ↦ record {
          at = col.at;
          values = col.values;
          named = col.named;
          fit =
              (key_values-IsFit col.at rows col.values).0
                (shift col.at (0 + col.at) rows (omega arith) ∙ col.fit);
          best = λ k name vs at fit.
              let above =
                best_column-above 0 tbl.headers rows none k name vs at
                  (shift (0 + k) k rows (omega arith) ∙ (key_values-IsFit k rows vs).1 fit) in
              let top = ap rank found.1 in let points = col.points in omega arith;
        }
      ]
