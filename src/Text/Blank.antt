-- ===== src/Text/Blank.antt =====
-- A text is blank exactly if it has spaces only.
use guangyang.Prelude.{
  ◌≡◌, refl, Bool, true, ◌&&◌, ◌∷◌, [], ◌++◌, arith, sym, ◌∙◌, Bool-cases, inl, inr,
}
use guangyang.Text.{Str, is_space, trim_left, trim_right, trim_space, is_blank, ◌===◌}

unfoldable pub all_space : Str → Bool
all_space [] = true
all_space (c ∷ s) = is_space c && all_space s

trim_left-nil : (s : Str) → (trim_left s === []) ≡ all_space s
unfolding trim_left all_space ◌===◌
trim_left-nil [] = refl
trim_left-nil (c ∷ s) = elim (Bool-cases (is_space c)) [
  | inl e ↦ rw e (trim_left-nil s)
  | inr e ↦ rw e
]

trim_right-nil : (s : Str) → (trim_right s === []) ≡ all_space s
unfolding trim_right all_space ◌===◌
trim_right-nil [] = refl
trim_right-nil (c ∷ s) = ground (arith, trim_right-nil s)

all_space-trim_left : (s : Str) → all_space (trim_left s) ≡ all_space s
unfolding trim_left all_space
all_space-trim_left [] = refl
all_space-trim_left (c ∷ s) = ground (arith, all_space-trim_left s)

all_space-trim_right : (s : Str) → all_space (trim_right s) ≡ all_space s
unfolding trim_right all_space
all_space-trim_right [] = refl
all_space-trim_right (c ∷ s) = ground (arith, all_space-trim_right s, trim_right-nil s)

pub is_blank-eq-all_space : (s : Str) → is_blank s ≡ all_space s
unfolding is_blank trim_space
is_blank-eq-all_space s = trim_right-nil (trim_left s) ∙ all_space-trim_left s

pub all_space-trim_space : (s : Str) → all_space (trim_space s) ≡ all_space s
unfolding trim_space
all_space-trim_space s = all_space-trim_right (trim_left s) ∙ all_space-trim_left s

-- Trimming does not change whether a text is blank.
pub is_blank-trim_space : (s : Str) → is_blank (trim_space s) ≡ is_blank s
is_blank-trim_space s =
    is_blank-eq-all_space (trim_space s) ∙ all_space-trim_space s ∙ sym (is_blank-eq-all_space s)

pub all_space-append : (s t : Str) → all_space (s ++ t) ≡ (all_space s && all_space t)
unfolding all_space
all_space-append [] t = refl
all_space-append (c ∷ s) t = ground (arith, all_space-append s t)
