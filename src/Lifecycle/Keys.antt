-- ===== src/Lifecycle/Keys.antt =====
-- The key of a result is never blank.
use guangyang.Prelude.{
  ℕ, ◌==◌, append_assoc, ◌≡◌, refl, Bool, true, false, List, ◌∷◌, [], ◌++◌, ◌⊎◌, inl, inr, arith,
  sym, ◌∙◌, Bool-cases, if◌then◌else◌,
}
use guangyang.Text.{Str, codes, is_blank, is_space, has_prefix, trim_space, ◌===◌}
use guangyang.Text.Blank.{all_space, all_space-append, is_blank-eq-all_space}
use guangyang.Text.Path.{
  slash, split, split_step, join_parts, clean_segment, clean_segments, unsplit, clean, join,
}
use guangyang.OssStore.{Store, object_key_for_job}

abbrev result_file : Str
result_file = codes "compare.xlsx"

-- A path whose last segment is the file of the result.
abbrev Ends : Str → Type 0
Ends s = (s ≡ result_file) ⊎ ((pre : Str) × (s ≡ pre ++ slash ∷ result_file))

append_ne_nil : (pre : Str) → (pre ++ slash ∷ result_file === []) ≡ false
unfolding ◌===◌
append_ne_nil [] = refl
append_ne_nil (c ∷ pre) = refl

join_parts-Ends : (p : Str) (ps : List Str) → Ends (join_parts ps) → Ends (join_parts (p ∷ ps))
unfolding join_parts ◌===◌
join_parts-Ends [] ps h = h
join_parts-Ends (c ∷ p) ps (inl e) = rw e (inr (c ∷ p, refl))
join_parts-Ends (c ∷ p) ps (inr (pre, e)) =
    rw (e, append_ne_nil pre)
      (inr ((c ∷ p) ++ slash ∷ pre, sym (append_assoc (c ∷ p) (slash ∷ pre) (slash ∷ result_file))))

-- The parts of a text are never none.
abbrev IsCons : List Str → Type 0
IsCons ps = (p : Str) × (qs : List Str) × (ps ≡ p ∷ qs)

split_step-IsCons : (c : ℕ) (ps : List Str) → IsCons ps → IsCons (split_step slash c ps)
unfolding split_step
split_step-IsCons c ps (p, qs, e) = rw e (elim (Bool-cases (c == slash)) [
  | inl t ↦ rw t ([], p ∷ qs, refl)
  | inr t ↦ rw t (c ∷ p, qs, refl)
])

split-IsCons : (s : Str) → IsCons (split slash s)
unfolding split
split-IsCons [] = ([], [], refl)
split-IsCons (c ∷ s) = split_step-IsCons c (split slash s) (split-IsCons s)

split_step-slash : (ps : List Str) → IsCons ps → split_step slash slash ps ≡ [] ∷ ps
unfolding split_step
split_step-slash ps (p, qs, e) = rw e

split_step-append :
    (c : ℕ) (ps qs : List Str)
    → IsCons ps
    → split_step slash c (ps ++ qs) ≡ split_step slash c ps ++ qs
unfolding split_step
split_step-append c ps qs (p, rs, e) = rw e (ground arith)

split-append : (pre t : Str) → split slash (pre ++ slash ∷ t) ≡ split slash pre ++ split slash t
unfolding split
split-append [] t = split_step-slash (split slash t) (split-IsCons t)
split-append (c ∷ pre) t =
    rw (split-append pre t)
      (split_step-append c (split slash pre) (split slash t) (split-IsCons pre))

clean_segments-append :
    (r : Bool) (kept ps : List Str) (x : Str)
    → clean_segments r kept (ps ++ x ∷ []) ≡ clean_segment r (clean_segments r kept ps) x
unfolding clean_segments
clean_segments-append r kept [] x = refl
clean_segments-append r kept (p ∷ ps) x = clean_segments-append r (clean_segment r kept p) ps x

clean_segment_file :
    (r : Bool) (kept : List Str) → clean_segment r kept result_file ≡ result_file ∷ kept
unfolding clean_segment
clean_segment_file r [] = ground arith
clean_segment_file r (q ∷ kept) = ground arith

unsplit_nonblank :
    (ps : List Str) (out : Str) → all_space out ≡ false → all_space (unsplit ps out) ≡ false
unfolding unsplit all_space is_space
unsplit_nonblank [] out h = h
unsplit_nonblank (p ∷ []) out h = ground (arith, all_space-append p out)
unsplit_nonblank (p ∷ q ∷ ps) out h = unsplit_nonblank (q ∷ ps) (slash ∷ (p ++ out)) refl

unsplit_file : (kept : List Str) → all_space (unsplit (result_file ∷ kept) []) ≡ false
unfolding unsplit all_space is_space
unsplit_file [] = refl
unsplit_file (q ∷ kept) = unsplit_nonblank (q ∷ kept) (slash ∷ (result_file ++ [])) refl

segments_file :
    (r : Bool) (s : Str)
    → Ends s
    → (kept : List Str) × (clean_segments r [] (split slash s) ≡ result_file ∷ kept)
unfolding split
segments_file r s (inl e) = rw e ([], unfold clean_segments in clean_segment_file r [])
segments_file r s (inr (pre, e)) = (
  clean_segments r [] (split slash pre),
  rw (e, split-append pre result_file)
      (clean_segments-append r [] (split slash pre) result_file ∙ clean_segment_file r _),
)

clean_out_nonblank :
    (rooted : Bool) (out : Str)
    → all_space out ≡ false
    → all_space (if rooted then slash ∷ out else if out === [] then codes "." else out) ≡ false
unfolding all_space is_space ◌===◌
clean_out_nonblank true out h = refl
clean_out_nonblank false [] h = refl
clean_out_nonblank false (c ∷ out) h = h

clean_nonblank : (s : Str) → Ends s → all_space (clean s) ≡ false
unfolding clean
clean_nonblank s h =
    let rooted = has_prefix (slash ∷ []) s in
    let (kept, e) = segments_file rooted s h in
    clean_out_nonblank rooted (unsplit (clean_segments rooted [] (split slash s)) [])
      (rw e (unsplit_file kept))

join_parts_file : (p q : Str) → Ends (join_parts (p ∷ q ∷ result_file ∷ []))
join_parts_file p q =
    join_parts-Ends p (q ∷ result_file ∷ [])
      (join_parts-Ends q (result_file ∷ []) (inl (unfold join_parts in refl)))

Ends-nonempty : (s : Str) → Ends s → (s === []) ≡ false
Ends-nonempty s (inl e) = rw e (unfold ◌===◌ in refl)
Ends-nonempty s (inr (pre, e)) = rw e (append_ne_nil pre)

join_nonblank : (ps : List Str) → Ends (join_parts ps) → is_blank (join ps) ≡ false
unfolding join
join_nonblank ps h =
    is_blank-eq-all_space (join ps) ∙ rw (Ends-nonempty _ h) (clean_nonblank (join_parts ps) h)

-- The key under which a result is stored is not blank, whatever the prefix and the job's id are.
pub object_key_for_job_nonblank :
    (s : Store) (job_id : Str) → is_blank (object_key_for_job s job_id) ≡ false
unfolding object_key_for_job
object_key_for_job_nonblank s job_id =
    join_nonblank (s.prefix ∷ trim_space job_id ∷ result_file ∷ [])
      (join_parts_file s.prefix (trim_space job_id))
