-- ===== src/Wechat/CertFind/Newest.antt =====
-- The newest archive is found.
use guangyang.Prelude.{
  ℕ, ◌≤◌, ◌≡◌, refl, ◌⊎◌, Bool, true, false, ◌||◌, Option, none, some, List, [], ◌∷◌, arith, ap,
  sym, subst, inl, inr, is_some,
}
use guangyang.Text.{Str}
use guangyang.Text.Path.{join}
use guangyang.Disk.{Disk, DirEntry, Machine, info, list_dir}
use guangyang.Wechat.CertFind.Sorted.{
  In, In-append, In-of_append, In-sort_newest, In-of_sort_newest, HeadIsNewest,
  sort_newest-HeadIsNewest,
}
use guangyang.Wechat.CertFind.{
  Candidate, cert_dirs, sort_newest, first_name, offered, candidate, candidates_of, candidates,
  newest,
}

offered_inv :
    (o : Option Str) (skipped : Bool) (t : ℕ) (c : Candidate)
    → In c (offered o skipped t)
    → (o ≡ some c.0) × (skipped ≡ false) × (c.1 ≡ t)
unfolding offered
offered_inv none skipped t c h = absurd h
offered_inv (some found) true t c h = absurd h
offered_inv (some found) false t c (inl e) =
    (ap (λ (x : Candidate). some x.0) (sym e), refl, ap (λ (x : Candidate). x.1) e)
offered_inv (some found) false t c (inr g) = absurd g

or_false : (a b : Bool) → (a || b) ≡ false → (a ≡ false) × (b ≡ false)
or_false a b h = ground arith

module _ (os : Machine) (pick : Str → Str → Option Str) (d : Disk) where
  -- An entry that a directory lists, no directory itself and with a readable FileInfo, of whose name
  -- something is taken.
  pub record Offers (at : Str) (e : DirEntry) (c : Candidate) : Type 0 where
    pub listed : In e (list_dir os at d)
    pub no_dir : e.is_dir ≡ false
    pub informed : is_some (os.refused info (join (at ∷ e.name ∷ [])) d) ≡ false
    pub taken : pick at e.name ≡ some c.0
    pub time : c.1 ≡ e.mtime

  candidate-In :
      (at : Str) (e : DirEntry) (c : Candidate) → Offers at e c → In c (candidate os pick at d e)
  unfolding candidate
  candidate-In at e c o = rw (o.taken, o.no_dir, o.informed) (inl (ap (λ (t : ℕ). (c.0, t)) o.time))

  candidate-Offers :
      (at : Str) (e : DirEntry) (c : Candidate)
      → In e (list_dir os at d)
      → In c (candidate os pick at d e)
      → Offers at e c
  unfolding candidate
  candidate-Offers at e c l h =
      let (taken, kept, time) = offered_inv (pick at e.name) _ e.mtime c h in
      let (no_dir, informed) = or_false e.is_dir _ kept in
      record { listed = l; no_dir = no_dir; informed = informed; taken = taken; time = time }

  candidates_of-In :
      (at : Str) (e : DirEntry) (c : Candidate) (es : List DirEntry)
      → In e es
      → Offers at e c
      → In c (candidates_of os pick at d es)
  unfolding candidates_of
  candidates_of-In at e c [] i o = absurd i
  candidates_of-In at e c (f ∷ es) (inl q) o =
      In-append c _ _ (inl (subst (λ g. In c (candidate os pick at d g)) q (candidate-In at e c o)))
  candidates_of-In at e c (f ∷ es) (inr i) o =
      In-append c _ _ (inr (candidates_of-In at e c es i o))

  candidates_of-Offers :
      (at : Str) (c : Candidate) (es : List DirEntry)
      → ((e : DirEntry) → In e es → In e (list_dir os at d))
      → In c (candidates_of os pick at d es)
      → (e : DirEntry) × Offers at e c
  unfolding candidates_of
  candidates_of-Offers at c [] sub h = absurd h
  candidates_of-Offers at c (e ∷ es) sub h =
      elim (In-of_append c (candidate os pick at d e) (candidates_of os pick at d es) h) [
        | inl g ↦ (e, candidate-Offers at e c (sub e (inl refl)) g)
        | inr g ↦ candidates_of-Offers at c es (λ f i. sub f (inr i)) g
      ]

  -- Some of the directories offers it.
  abbrev pub Offered : List Str → Candidate → Type 0
  Offered dirs c = (at : Str) × (e : DirEntry) × In at dirs × Offers at e c

  candidates-In :
      (dirs : List Str) (at : Str) (e : DirEntry) (c : Candidate)
      → In at dirs
      → Offers at e c
      → In c (candidates os pick d dirs)
  unfolding candidates
  candidates-In [] at e c i o = absurd i
  candidates-In (b ∷ dirs) at e c (inl q) o = In-append c _ _ (
      inl (
        subst (λ p. In c (candidates_of os pick p d (list_dir os p d))) q
          (candidates_of-In at e c (list_dir os at d) o.listed o)))
  candidates-In (b ∷ dirs) at e c (inr i) o = In-append c _ _ (inr (candidates-In dirs at e c i o))

  candidates-Offered :
      (dirs : List Str) (c : Candidate) → In c (candidates os pick d dirs) → Offered dirs c
  unfolding candidates
  candidates-Offered [] c h = absurd h
  candidates-Offered (at ∷ dirs) c h =
      elim (In-of_append c (candidates_of os pick at d (list_dir os at d)) _ h) [
        | inl g ↦
            let (e, o) = candidates_of-Offers at c (list_dir os at d) (λ f i. i) g in
            (at, e, inl refl, o)
        | inr g ↦ let (b, e, i, o) = candidates-Offered dirs c g in (b, e, inr i, o)
      ]

  -- The name `p` is the newest of those that are offered, or nothing is offered and it is empty.
  abbrev pub IsNewest : Str → Type 0
  IsNewest p =
      ((p ≡ []) × ((c : Candidate) → ¬ Offered cert_dirs c))
      ⊎ ((t : ℕ) × Offered cert_dirs (p, t) × ((c : Candidate) → Offered cert_dirs c → c.1 ≤ t))

  first_name-IsNewest :
      (cs : List Candidate)
      → ((c : Candidate) → In c cs → Offered cert_dirs c)
      → ((c : Candidate) → Offered cert_dirs c → In c cs)
      → HeadIsNewest cs
      → IsNewest (first_name cs)
  unfolding first_name
  first_name-IsNewest [] sound complete h = inl (refl, complete)
  first_name-IsNewest (c ∷ cs) sound complete h =
      inr (c.1, sound c (inl refl), λ a o. h a (complete a o))

  -- Of the files that the two directories offer, the newest is taken; nothing is, if there is none.
  pub newest-IsNewest : IsNewest (newest os pick d)
  unfolding newest
  newest-IsNewest =
      first_name-IsNewest (sort_newest (candidates os pick d cert_dirs))
        (λ c i. candidates-Offered cert_dirs c (In-of_sort_newest c _ i))
        (λ c o. In-sort_newest c _ (candidates-In cert_dirs o.0 o.1 c o.2 o.3))
        (sort_newest-HeadIsNewest (candidates os pick d cert_dirs))
