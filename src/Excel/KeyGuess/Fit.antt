-- ===== src/Excel/KeyGuess/Fit.antt =====
-- Which columns may be the key, told without the tests of GuessPrimaryKeyColumn.
use guangyang.Prelude.{
  ℕ, ◌≡◌, ◌≢◌, ◌↔◌, refl, ap, ◌∙◌, subst, true, false, not, ◌&&◌, List, [], ◌∷◌, Option, none, some,
  get_elem?, arith, Bool-cases, Option-cases, inl, inr,
}
use guangyang.Text.{Str, is_blank, trim_space, ◌===◌, ===_sound, ===_iff}
use guangyang.Excel.StrMap.{elem}
use guangyang.Excel.KeyedRows.{Row}
use guangyang.Excel.KeyGuess.{
  cell_value, cons_value, column_values, is_unique, if_unique, key_values,
}

-- The row has a cell in the column that is not blank, and this is its text without the space around.
abbrev pub HasCell : ℕ → Row → Str → Type 0
HasCell col row v =
    (cell : Str) × (get_elem? row col ≡ some cell) × (is_blank cell ≡ false) × (trim_space cell ≡ v)

abbrev pub Cells : ℕ → List Row → List Str → Type 0
Cells col [] [] = Unit
Cells col [] (v ∷ vs) = ⊥
Cells col (row ∷ rows) [] = ⊥
Cells col (row ∷ rows) (v ∷ vs) = HasCell col row v × Cells col rows vs

abbrev pub NoneIs : Str → List Str → Type 0
NoneIs v [] = Unit
NoneIs v (w ∷ ws) = (v ≢ w) × NoneIs v ws

abbrev pub AllDiffer : List Str → Type 0
AllDiffer [] = Unit
AllDiffer (v ∷ vs) = NoneIs v vs × AllDiffer vs

-- There are rows, each has a value in the column, and these differ.
pub record IsFit (col : ℕ) (rows : List Row) (values : List Str) : Type 0 where
  pub some_rows : rows ≢ []
  pub cells : Cells col rows values
  pub differ : AllDiffer values

cell_value-HasCell :
    (col : ℕ) (row : Row) (v : Str) → cell_value (get_elem? row col) ≡ some v → HasCell col row v
unfolding cell_value
cell_value-HasCell col row v = elim (Option-cases (get_elem? row col)) [
  | inl e ↦ rw e (λ h. absurd (cc))
  | inr (cell, e) ↦ elim (Bool-cases (is_blank cell)) [
    | inl b ↦ rw (e, b) (λ h. absurd (cc))
    | inr b ↦ rw (e, b) (λ h. (cell, refl, b, cc))
  ]
]

HasCell-cell_value :
    (col : ℕ) (row : Row) (v : Str) → HasCell col row v → cell_value (get_elem? row col) ≡ some v
unfolding cell_value
HasCell-cell_value col row v (cell, at, b, e) = rw (at, b, e) refl

column_values-Cells :
    (col : ℕ) (rows : List Row) (vs : List Str)
    → column_values col rows ≡ some vs
    → Cells col rows vs
unfolding column_values
column_values-Cells col [] [] h = tt
column_values-Cells col [] (v ∷ vs) h = absurd (cc)
column_values-Cells col (row ∷ rows) vs h =
    rest (λ xs. column_values-Cells col rows xs) (cell_value (get_elem? row col))
      (column_values col rows) vs refl refl h
  where
    rest :
        ((xs : List Str) → column_values col rows ≡ some xs → Cells col rows xs)
        → (o : Option Str) (os : Option (List Str)) (vs : List Str)
        → cell_value (get_elem? row col) ≡ o
        → column_values col rows ≡ os
        → cons_value o os ≡ some vs
        → Cells col (row ∷ rows) vs
    rest below none os vs e es h = absurd (cc)
    rest below (some v) none vs e es h = absurd (cc)
    rest below (some v) (some ws) [] e es h = absurd (cc)
    rest below (some v) (some ws) (x ∷ xs) e es h =
        let first : v ≡ x = cc in
        let others : ws ≡ xs = cc in
        (cell_value-HasCell col row x (e ∙ ap some first), below xs (es ∙ ap some others))

Cells-column_values :
    (col : ℕ) (rows : List Row) (vs : List Str)
    → Cells col rows vs
    → column_values col rows ≡ some vs
unfolding column_values
Cells-column_values col [] [] h = refl
Cells-column_values col [] (v ∷ vs) h = absurd h
Cells-column_values col (row ∷ rows) [] h = absurd h
Cells-column_values col (row ∷ rows) (v ∷ vs) (first, others) =
    rw (HasCell-cell_value col row v first, Cells-column_values col rows vs others) refl

-- No value is among those that were met before.
abbrev Apart : List Str → List Str → Type 0
Apart uniq [] = Unit
Apart uniq (v ∷ vs) = (elem v uniq ≡ false) × Apart uniq vs

differ_iff : (v w : Str) → ((v === w) ≡ false) ↔ (v ≢ w)
differ_iff v w = elim (Bool-cases (v === w)) [
  | inl e ↦ ((λ h. absurd (cc)), λ h. absurd (h (===_sound v w e)))
  | inr e ↦ ((λ h same. let yes = (===_iff v w).1 same in absurd (cc)), λ h. e)
]

Apart-cons : (v : Str) (uniq vs : List Str) → Apart (v ∷ uniq) vs ↔ (Apart uniq vs × NoneIs v vs)
unfolding elem
Apart-cons v uniq [] = ((λ h. (tt, tt)), λ h. tt)
Apart-cons v uniq (w ∷ ws) = (to (Apart-cons v uniq ws), from (Apart-cons v uniq ws))
  where
    to :
        (Apart (v ∷ uniq) ws ↔ (Apart uniq ws × NoneIs v ws))
        → Apart (v ∷ uniq) (w ∷ ws)
        → Apart uniq (w ∷ ws) × NoneIs v (w ∷ ws)
    to below (h, t) =
        let others = below.0 t in
        let here : (v === w) ≡ false = ground arith in
        let there : elem w uniq ≡ false = ground arith in
        ((there, others.0), ((differ_iff v w).0 here, others.1))

    from :
        (Apart (v ∷ uniq) ws ↔ (Apart uniq ws × NoneIs v ws))
        → Apart uniq (w ∷ ws) × NoneIs v (w ∷ ws)
        → Apart (v ∷ uniq) (w ∷ ws)
    from below ((h, t), (d, ds)) =
        let here = (differ_iff v w).1 d in (rw (here, h) refl, below.1 (t, ds))

is_unique_iff : (uniq vs : List Str) → (is_unique uniq vs ≡ true) ↔ (Apart uniq vs × AllDiffer vs)
unfolding is_unique
is_unique_iff uniq [] = ((λ h. (tt, tt)), λ h. refl)
is_unique_iff uniq (v ∷ vs) = (to (is_unique_iff (v ∷ uniq) vs), from (is_unique_iff (v ∷ uniq) vs))
  where
    to :
        ((is_unique (v ∷ uniq) vs ≡ true) ↔ (Apart (v ∷ uniq) vs × AllDiffer vs))
        → (not (elem v uniq) && is_unique (v ∷ uniq) vs) ≡ true
        → Apart uniq (v ∷ vs) × AllDiffer (v ∷ vs)
    to below h =
        let rest : is_unique (v ∷ uniq) vs ≡ true = ground arith in
        let new : elem v uniq ≡ false = ground arith in
        let (apart, differ) = below.0 rest in
        let (behind, none_is) = (Apart-cons v uniq vs).0 apart in ((new, behind), (none_is, differ))

    from :
        ((is_unique (v ∷ uniq) vs ≡ true) ↔ (Apart (v ∷ uniq) vs × AllDiffer vs))
        → Apart uniq (v ∷ vs) × AllDiffer (v ∷ vs)
        → (not (elem v uniq) && is_unique (v ∷ uniq) vs) ≡ true
    from below ((new, behind), (none_is, differ)) =
        rw (new, below.1 ((Apart-cons v uniq vs).1 (behind, none_is), differ)) refl

Apart-nil : (vs : List Str) → Apart [] vs
unfolding elem
Apart-nil [] = tt
Apart-nil (v ∷ vs) = (refl, Apart-nil vs)

-- The code takes exactly the columns that are fit, with their values.
pub key_values-IsFit :
    (col : ℕ) (rows : List Row) (vs : List Str)
    → (key_values col rows ≡ some vs) ↔ IsFit col rows vs
unfolding key_values
key_values-IsFit col [] vs = ((λ h. absurd (cc)), λ fit. absurd (fit.some_rows refl))
key_values-IsFit col (row ∷ rows) vs = (to (column_values col (row ∷ rows)) refl, from)
  where
    to :
        (o : Option (List Str))
        → column_values col (row ∷ rows) ≡ o
        → if_unique o ≡ some vs
        → IsFit col (row ∷ rows) vs
    to none e = λ h. absurd (cc)
    to (some ws) e = elim (Bool-cases (is_unique [] ws)) [
      | inl u ↦ rw u (λ h.
          let same : ws ≡ vs = cc in
          record {
            some_rows = λ nil. absurd (cc);
            cells = column_values-Cells col (row ∷ rows) vs (e ∙ ap some same);
            differ = subst AllDiffer same ((is_unique_iff [] ws).0 u).1;
          })
      | inr u ↦ rw u (λ h. absurd (cc))
    ]

    from : IsFit col (row ∷ rows) vs → if_unique (column_values col (row ∷ rows)) ≡ some vs
    from fit =
        let unique = (is_unique_iff [] vs).1 (Apart-nil vs, fit.differ) in
        let all : if_unique (some vs) ≡ some vs = rw unique refl in
        ap if_unique (Cells-column_values col (row ∷ rows) vs fit.cells) ∙ all
