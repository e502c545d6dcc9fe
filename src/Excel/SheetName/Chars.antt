-- ===== src/Excel/SheetName/Chars.antt =====
-- The characters of the names: none that Excel forbids.
use guangyang.Prelude.{
  ℕ, ◌-◌, ◌<◌, ◌≢◌, ◌⊎◌, sym, Bool, true, false, ◌++◌, List, [], ◌∷◌, arith, ltb, leb, ◌==◌, length,
  All, All-append, All-take, Bool-cases, inl, inr, if◌then◌else◌,
}
use guangyang.Text.{Str, codes, trim_space}
use guangyang.Text.Decimal.{format_nat}
use guangyang.Excel.SheetName.{
  trim_runes, replace_char, replace_chars, forbidden, nonempty_or, safe_sheet_name, candidate,
}
use guangyang.Excel.SheetName.Suffix.{Digits, format_nat-Digits}

-- The character does not occur.
abbrev pub Without : Str → ℕ → Type 0
Without s x = All (λ c. c ≢ x) s

-- No forbidden character occurs.
abbrev pub Accepted : Str → Type 0
Accepted s = All (Without s) forbidden

replace_char-Without_self : (x : ℕ) (s : Str) → x ≢ b'_' → Without (replace_char x s) x
unfolding replace_char
replace_char-Without_self x [] h = tt
replace_char-Without_self x (c ∷ s) h = (λ e. h (ground arith), replace_char-Without_self x s h)

replace_char-Without : (x y : ℕ) (s : Str) → x ≢ b'_' → Without s x → Without (replace_char y s) x
unfolding replace_char
replace_char-Without x y [] h k = tt
replace_char-Without x y (c ∷ s) h k = elim (Bool-cases (c == y)) [
  | inl e ↦ rw e (λ g. h (sym g), replace_char-Without x y s h k.1)
  | inr e ↦ rw e (k.0, replace_char-Without x y s h k.1)
]

replace_chars-Without :
    (x : ℕ) (chs : List ℕ) (s : Str) → x ≢ b'_' → Without s x → Without (replace_chars chs s) x
unfolding replace_chars
replace_chars-Without x [] s h k = k
replace_chars-Without x (y ∷ chs) s h k =
    replace_chars-Without x chs (replace_char y s) h (replace_char-Without x y s h k)

replace_chars-All :
    (chs : List ℕ) (s : Str) → All (λ x. x ≢ b'_') chs → All (Without (replace_chars chs s)) chs
unfolding replace_chars
replace_chars-All [] s h = tt
replace_chars-All (x ∷ chs) s h = (
  replace_chars-Without x chs (replace_char x s) h.0 (replace_char-Without_self x s h.0),
  replace_chars-All chs (replace_char x s) h.1,
)

trim_runes-Without : (x n : ℕ) (s : Str) → Without s x → Without (trim_runes s n) x
unfolding trim_runes
trim_runes-Without x n s h = elim (Bool-cases (leb n 0)) [
  | inl e ↦ rw e tt
  | inr e ↦ rw e (elim (Bool-cases (leb (length s) n)) [
    | inl g ↦ rw g h
    | inr g ↦ rw g (All-take (λ c. c ≢ x) n s h)
  ])
]

Digits-Without : (x : ℕ) (s : Str) → (x < b'0') ⊎ (b'9' < x) → Digits s → Without s x
Digits-Without x [] h d = tt
Digits-Without x (c ∷ s) h d = (λ e. ground arith, Digits-Without x s h d.2)

All-map : (P Q : ℕ → Type 0) (xs : List ℕ) → All (λ x. P x → Q x) xs → All P xs → All Q xs
All-map P Q [] f h = tt
All-map P Q (x ∷ xs) f h = (f.0 h.0, All-map P Q xs f.1 h.1)

All-of : (P : ℕ → Type 0) (xs : List ℕ) → ((x : ℕ) → P x) → All P xs
All-of P [] f = tt
All-of P (x ∷ xs) f = (f x, All-of P xs f)

-- Where no character is added, none that is forbidden is.
Accepted-step : (s t : Str) → ((x : ℕ) → Without s x → Without t x) → Accepted s → Accepted t
Accepted-step s t f h = All-map (Without s) (Without t) forbidden (All-of _ forbidden f) h

forbidden_others : All (λ x. x ≢ b'_') forbidden
forbidden_others = omega arith

-- The character is neither a digit nor the underscore.
Outside : ℕ → Type 0
Outside x = ((x < b'0') ⊎ (b'9' < x)) × (x ≢ b'_')

forbidden-Outside : All Outside forbidden
unfolding Outside
forbidden-Outside = ground arith

cut_or_whole-Accepted :
    (b : Bool) (s : Str) (n : ℕ) → Accepted s → Accepted (if b then trim_runes s n else s)
cut_or_whole-Accepted true s n h =
    Accepted-step s (trim_runes s n) (λ x. trim_runes-Without x n s) h
cut_or_whole-Accepted false s n h = h

pub safe_sheet_name-Accepted : (name : Str) → Accepted (safe_sheet_name name)
unfolding safe_sheet_name
safe_sheet_name-Accepted name =
    let s = replace_chars forbidden (nonempty_or (codes "Sheet") (trim_space name)) in
    cut_or_whole-Accepted (ltb 31 (length s)) s 31
      (replace_chars-All forbidden (nonempty_or (codes "Sheet") (trim_space name)) forbidden_others)

append-Accepted : (s t : Str) → Accepted s → Accepted t → Accepted (s ++ t)
append-Accepted s t h k =
    All-map (Without t) (Without (s ++ t)) forbidden
      (All-map (Without s) (λ x. Without t x → Without (s ++ t) x) forbidden
        (All-of (λ x. Without s x → Without t x → Without (s ++ t) x) forbidden
          (λ x a b. All-append (λ c. c ≢ x) s t a b))
        h)
      k

suffix-Accepted : (t : Str) → Digits t → Accepted (b'_' ∷ t)
unfolding Outside
suffix-Accepted t d =
    All-map Outside (Without (b'_' ∷ t)) forbidden
      (All-of (λ x. Outside x → Without (b'_' ∷ t) x) forbidden
        (λ x h. (λ e. h.1 (sym e), Digits-Without x t h.0 d)))
      forbidden-Outside

pub candidate-Accepted : (name : Str) (k : ℕ) → Accepted name → Accepted (candidate name k)
unfolding candidate
candidate-Accepted name k h =
    let suffix = b'_' ∷ format_nat k in
    let max_len = if ltb (31 - length suffix) 1 then 1 else 31 - length suffix in
    append-Accepted (if ltb max_len (length name) then trim_runes name max_len else name) suffix
      (cut_or_whole-Accepted (ltb max_len (length name)) name max_len h)
      (suffix-Accepted (format_nat k) (format_nat-Digits k))
