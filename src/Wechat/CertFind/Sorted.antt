-- ===== src/Wechat/CertFind/Sorted.antt =====
-- The sort by time: it keeps the candidates, and puts a newest one first.
use guangyang.Prelude.{◌≤◌, ◌≡◌, ◌⊎◌, List, [], ◌∷◌, ◌++◌, arith, ltb, ap, Bool-cases, inl, inr}
use guangyang.Wechat.CertFind.{Candidate, insert_newer, sort_newest}

-- An element of a list.
abbrev pub In : {A : Type 0} → A → List A → Type 0
In a [] = ⊥
In a (x ∷ xs) = (a ≡ x) ⊎ In a xs

pub In-append : {A : Type 0} (a : A) (xs ys : List A) → In a xs ⊎ In a ys → In a (xs ++ ys)
In-append a [] ys (inl h) = absurd h
In-append a [] ys (inr h) = h
In-append a (x ∷ xs) ys (inl (inl h)) = inl h
In-append a (x ∷ xs) ys (inl (inr h)) = inr (In-append a xs ys (inl h))
In-append a (x ∷ xs) ys (inr h) = inr (In-append a xs ys (inr h))

pub In-of_append : {A : Type 0} (a : A) (xs ys : List A) → In a (xs ++ ys) → In a xs ⊎ In a ys
In-of_append a [] ys h = inr h
In-of_append a (x ∷ xs) ys (inl h) = inl (inl h)
In-of_append a (x ∷ xs) ys (inr h) = elim (In-of_append a xs ys h) [
  | inl g ↦ inl (inr g)
  | inr g ↦ inr g
]

In-insert_newer :
    (a c : Candidate) (cs : List Candidate) → (a ≡ c) ⊎ In a cs → In a (insert_newer c cs)
unfolding insert_newer
In-insert_newer a c [] h = h
In-insert_newer a c (d ∷ ds) h = elim (Bool-cases (ltb c.1 d.1)) [
  | inl older ↦ rw older (elim h [
    | inl e ↦ inr (In-insert_newer a c ds (inl e))
    | inr (inl e) ↦ inl e
    | inr (inr g) ↦ inr (In-insert_newer a c ds (inr g))
  ])
  | inr newer ↦ rw newer h
]

In-of_insert_newer :
    (a c : Candidate) (cs : List Candidate) → In a (insert_newer c cs) → (a ≡ c) ⊎ In a cs
unfolding insert_newer
In-of_insert_newer a c [] h = h
In-of_insert_newer a c (d ∷ ds) h = elim (Bool-cases (ltb c.1 d.1)) [
  | inl older ↦ elim (rw older at h) as (λ _. (a ≡ c) ⊎ In a (d ∷ ds)) [
    | inl e ↦ inr (inl e)
    | inr g ↦ elim (In-of_insert_newer a c ds g) [ inl e ↦ inl e | inr m ↦ inr (inr m) ]
  ]
  | inr newer ↦ rw newer at h
]

pub In-sort_newest : (a : Candidate) (cs : List Candidate) → In a cs → In a (sort_newest cs)
unfolding sort_newest
In-sort_newest a [] h = h
In-sort_newest a (c ∷ cs) (inl e) = In-insert_newer a c (sort_newest cs) (inl e)
In-sort_newest a (c ∷ cs) (inr h) =
    In-insert_newer a c (sort_newest cs) (inr (In-sort_newest a cs h))

pub In-of_sort_newest : (a : Candidate) (cs : List Candidate) → In a (sort_newest cs) → In a cs
unfolding sort_newest
In-of_sort_newest a [] h = h
In-of_sort_newest a (c ∷ cs) h = elim (In-of_insert_newer a c (sort_newest cs) h) [
  | inl e ↦ inl e
  | inr g ↦ inr (In-of_sort_newest a cs g)
]

-- The first of the list has the greatest time.
abbrev pub HeadIsNewest : List Candidate → Type 0
HeadIsNewest [] = Unit {0}
HeadIsNewest (c ∷ cs) = (a : Candidate) → In a (c ∷ cs) → a.1 ≤ c.1

insert_newer-HeadIsNewest :
    (c : Candidate) (cs : List Candidate) → HeadIsNewest cs → HeadIsNewest (insert_newer c cs)
unfolding insert_newer
insert_newer-HeadIsNewest c [] h =
    λ a i. elim i [ inl e ↦ omega (arith, ap (λ (x : Candidate). x.1) e) | inr g ↦ absurd g ]
insert_newer-HeadIsNewest c (d ∷ ds) h = elim (Bool-cases (ltb c.1 d.1)) [
  | inl older ↦ rw older λ a i. elim i [
    | inl e ↦ h a (inl e)
    | inr g ↦ elim (In-of_insert_newer a c ds g) [
      | inl e ↦ ground (arith, ap (λ (x : Candidate). x.1) e)
      | inr m ↦ h a (inr m)
    ]
  ]
  | inr newer ↦ rw newer λ a i. elim i [
    | inl e ↦ omega (arith, ap (λ (x : Candidate). x.1) e)
    | inr g ↦ ground (arith, h a g)
  ]
]

pub sort_newest-HeadIsNewest : (cs : List Candidate) → HeadIsNewest (sort_newest cs)
unfolding sort_newest
sort_newest-HeadIsNewest [] = tt
sort_newest-HeadIsNewest (c ∷ cs) =
    insert_newer-HeadIsNewest c (sort_newest cs) (sort_newest-HeadIsNewest cs)
