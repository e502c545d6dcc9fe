-- ===== src/Text/Trim.antt =====
-- Trimming a second time changes nothing.
use guangyang.Prelude.{◌≡◌, refl, ap, ◌∙◌, false, ◌&&◌, ◌∷◌, [], Bool-cases, inl, inr}
use guangyang.Text.{Str, is_space, trim_left, trim_right, trim_space, ◌===◌}

trim_right-trim_right : (s : Str) → trim_right (trim_right s) ≡ trim_right s
unfolding trim_right
trim_right-trim_right [] = refl
trim_right-trim_right (c ∷ s) = elim (Bool-cases (is_space c && (trim_right s === []))) [
  | inl e ↦ rw e refl
  | inr e ↦ rw (e, trim_right-trim_right s, e) refl
]

trim_left-word :
    (c : _) (s : Str) → is_space c ≡ false → trim_left (trim_right (c ∷ s)) ≡ trim_right (c ∷ s)
unfolding trim_left trim_right
trim_left-word c s e = rw (e, e) refl

trim_left-trim_space : (s : Str) → trim_left (trim_space s) ≡ trim_space s
unfolding trim_space trim_left
trim_left-trim_space [] = refl
trim_left-trim_space (c ∷ s) = elim (Bool-cases (is_space c)) [
  | inl e ↦ rw e (trim_left-trim_space s)
  | inr e ↦ rw e (trim_left-word c s e)
]

pub trim_space-trim_space : (s : Str) → trim_space (trim_space s) ≡ trim_space s
unfolding trim_space
trim_space-trim_space s =
    ap trim_right (trim_left-trim_space s) ∙ trim_right-trim_right (trim_left s)
