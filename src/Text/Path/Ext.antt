-- ===== src/Text/Path/Ext.antt =====
-- The extension of a path is its end, and has no other.
use guangyang.Prelude.{
  ℕ, ◌≡◌, refl, ◌⊎◌, false, [], ◌∷◌, ◌++◌, ◌==◌, arith, ap, sym, ◌∙◌, subst, append-nil, Bool-cases,
  inl, inr,
}
use guangyang.Text.{Str, ◌===◌, is_space, trim_left, trim_right, trim_space}
use guangyang.Text.Path.{slash, ext, ext_from}

-- Either the text has no extension of its own, or it ends in it.
ext_from-end : (s f : Str) → (ext_from f s ≡ f) ⊎ ((front : Str) × (s ≡ front ++ ext_from f s))
unfolding ext_from
ext_from-end [] f = inl refl
ext_from-end (c ∷ s) f = elim (Bool-cases (c == slash)) [
  | inl is_slash ↦ rw is_slash (elim (ext_from-end s []) [
    | inl e ↦ inr (c ∷ s, rw (e, append-nil))
    | inr (front, e) ↦ inr (c ∷ front, ap (λ t. c ∷ t) e)
  ])
  | inr no_slash ↦ elim (Bool-cases (c == b'.')) [
    | inl is_dot ↦
        rw (no_slash, is_dot)
          (elim (ext_from-end s (c ∷ s)) [
            | inl e ↦ inr ([], sym e)
            | inr (front, e) ↦ inr (c ∷ front, ap (λ t. c ∷ t) e)
          ])
    | inr no_dot ↦
        rw (no_slash, no_dot)
          (elim (ext_from-end s f) [
            | inl e ↦ inl e
            | inr (front, e) ↦ inr (c ∷ front, ap (λ t. c ∷ t) e)
          ])
  ]
]

-- A text ends in its extension.
pub ext-end : (s : Str) → (front : Str) × (s ≡ front ++ ext s)
unfolding ext
ext-end s = elim (ext_from-end s []) [ inl e ↦ (s, rw (e, append-nil)) | inr p ↦ p ]

-- What the rest of a text does to an extension: nothing, or it sets one.
Settled : Str → Type 0
Settled s =
    ((f : Str) → ext_from f s ≡ f) ⊎ (((f : Str) → ext_from f s ≡ ext s) × (ext (ext s) ≡ ext s))

-- All texts before give the extension of `s`, which therefore is settled.
settle : (c : ℕ) (s t : Str) → ((f : Str) → ext_from f (c ∷ s) ≡ t) → ext t ≡ t → Settled (c ∷ s)
unfolding Settled ext
settle c s t e h = inr (λ f. e f ∙ sym (e []), ap ext (e []) ∙ h ∙ sym (e []))

settled : (s : Str) → Settled s
unfolding Settled ext
settled [] = inl (λ f. refl)
settled (c ∷ s) = elim (Bool-cases (c == slash)) [
  | inl is_slash ↦
      let step : (f : Str) → ext_from f (c ∷ s) ≡ ext s = λ f. rw (ext_from, is_slash) in
      elim (settled s) [
        | inl e ↦ settle c s [] (λ f. step f ∙ e []) refl
        | inr p ↦ settle c s (ext s) step p.1
      ]
  | inr no_slash ↦ elim (Bool-cases (c == b'.')) [
    | inl is_dot ↦
        let step : (f : Str) → ext_from f (c ∷ s) ≡ ext_from (c ∷ s) s =
          λ f. rw (ext_from, no_slash, is_dot) in
        elim (settled s) [
          | inl e ↦ settle c s (c ∷ s) (λ f. step f ∙ e (c ∷ s)) (step [] ∙ e (c ∷ s))
          | inr p ↦ settle c s (ext s) (λ f. step f ∙ p.0 (c ∷ s)) p.1
        ]
    | inr no_dot ↦
        let step : (f : Str) → ext_from f (c ∷ s) ≡ ext_from f s =
          λ f. rw (ext_from, no_slash, no_dot) in
        elim (settled s) [
          | inl e ↦ inl (λ f. step f ∙ e f)
          | inr p ↦ settle c s (ext s) (λ f. step f ∙ p.0 f) p.1
        ]
  ]
]

-- An extension is its own extension.
pub ext-ext : (s : Str) → ext (ext s) ≡ ext s
unfolding ext Settled
ext-ext s = elim (settled s) [ inl e ↦ ap ext (e []) ∙ sym (e []) | inr p ↦ p.1 ]

-- Blanks before a path do not change its extension.
ext-trim_left : (s : Str) → ext (trim_left s) ≡ ext s
unfolding ext ext_from trim_left is_space
ext-trim_left [] = refl
ext-trim_left (c ∷ s) = ground (arith, ext-trim_left s)

append_nonempty : (s t : Str) → (t === []) ≡ false → ((s ++ t) === []) ≡ false
unfolding ◌===◌
append_nonempty [] t h = h
append_nonempty (c ∷ s) t h = refl

-- A text whose end has no blanks behind it has none either.
pub trim_right-stays :
    (s t : Str) → trim_right t ≡ t → (t === []) ≡ false → trim_right (s ++ t) ≡ s ++ t
unfolding trim_right
trim_right-stays [] t h ne = h
trim_right-stays (c ∷ s) t h ne =
    rw (trim_right-stays s t h ne) (ground (arith, append_nonempty s t ne))

-- An extension without blanks is there after the blanks round the path are cut off.
pub ext-trim_space :
    (s e : Str) → ext s ≡ e → trim_right e ≡ e → (e === []) ≡ false → ext (trim_space s) ≡ e
unfolding trim_space
ext-trim_space s e h tr ne =
    let (front, p) = ext-end (trim_left s) in
    let g : ext (trim_left s) ≡ e = ext-trim_left s ∙ h in
    let q : trim_left s ≡ front ++ e = p ∙ ap (λ t. front ++ t) g in
    subst (λ t. ext t ≡ e) (sym (ap trim_right q ∙ trim_right-stays front e tr ne ∙ sym q)) g
