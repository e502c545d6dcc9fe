-- ===== src/Obs/Labels.antt =====
-- What the counters count.
use guangyang.Prelude.{
  ℕ, ◌+◌, ◌≡◌, refl, false, List, [], ◌∷◌, ◌++◌, arith, ◌==◌, if◌then◌else◌, Bool-cases, inl, inr,
}
use guangyang.Text.{Str, codes}
use guangyang.Text.Path.{slash, split, split_step}
use guangyang.Text.Path.Ext.{trim_right-stays}
use guangyang.Obs.{
  jobs_prefix, normalize_route_label, Request, Labels, Counter, same_labels, inc, request_labels,
  count_requests,
}

-- The requests that are counted under these labels.
pub count_labels : Labels → List Request → ℕ
unfolding same_labels request_labels
count_labels ls [] = 0
count_labels ls (r ∷ rs) =
    let rest = count_labels ls rs in if same_labels (request_labels r) ls then rest + 1 else rest

-- After any requests each counter has grown by the number of the requests with its labels.
pub count_requests-count_labels :
    (rs : List Request) (c : Counter) (ls : Labels)
    → count_requests rs c ls ≡ c ls + count_labels ls rs
unfolding count_requests count_labels inc
count_requests-count_labels [] c ls = omega arith
count_requests-count_labels (r ∷ rs) c ls =
    ground (arith, count_requests-count_labels rs (inc (request_labels r) c) ls)

-- No slash.
abbrev pub OnePart : Str → Type 0
OnePart [] = Unit {0}
OnePart (c ∷ s) = ((c == slash) ≡ false) × OnePart s

split_step-cons :
    (c : ℕ) (p : Str) (ps : List Str)
    → (q : Str) × (qs : List Str) × (split_step slash c (p ∷ ps) ≡ q ∷ qs)
unfolding split_step
split_step-cons c p ps = elim (Bool-cases (c == slash)) [
  | inl cut ↦ ([], p ∷ ps, rw cut)
  | inr same ↦ (c ∷ p, ps, rw same)
]

split-cons : (s : Str) → (p : Str) × (ps : List Str) × (split slash s ≡ p ∷ ps)
unfolding split
split-cons [] = ([], [], refl)
split-cons (c ∷ s) = let (p, ps, e) = split-cons s in rw e (split_step-cons c p ps)

split-OnePart : (id s : Str) → OnePart id → split slash (id ++ slash ∷ s) ≡ id ∷ split slash s
unfolding split split_step
split-OnePart [] s h = let (p, ps, e) = split-cons s in rw e refl
split-OnePart (c ∷ id) s h = rw (split-OnePart id s h.1) (rw h.0 refl)

-- The label of an export or of a cancellation does not depend on the job.
pub normalize_route_label-job :
    (id : Str)
    → OnePart id
    → (normalize_route_label (jobs_prefix ++ id ++ codes "/export")
        ≡ codes "/compare/jobs/:jobId/export")
      × (normalize_route_label (jobs_prefix ++ id ++ codes "/cancel")
          ≡ codes "/compare/jobs/:jobId/cancel")
unfolding normalize_route_label
normalize_route_label-job id h = (
  rw (trim_right-stays id (codes "/export") refl refl, split-OnePart id (codes "export") h) refl,
  rw (trim_right-stays id (codes "/cancel") refl refl, split-OnePart id (codes "cancel") h) refl,
)
