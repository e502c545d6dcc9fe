-- ===== src/Disk/Contents.antt =====
-- What the actions on a disk do to the contents of files.
use guangyang.Prelude.{◌≡◌, refl, ◌∙◌, false, Option, none, some, List, [], ◌∷◌, arith}
use guangyang.Text.{Str, ◌===◌, ===_iff, ===_refl}
use guangyang.Errors.{GoError, Result, ok, err}
use guangyang.Excel.StrMap.{lookup, assign, lookup-assign}
use guangyang.Disk.{
  Node, file, folder, Disk, Machine, Action, without, remove_file, ◌>>=◌, make_dir, create, copy,
  text_of, content, make_dir_at, make_dirs, mkdir_unless, mkdir_all, create_at, create_file,
  copy_unless, copy_to, ancestors,
}

pub content-assign_ne :
    (q p : Str) (node : Node) (d : Disk)
    → (p === q) ≡ false
    → content q (assign p node d) ≡ content q d
content-assign_ne q p node d h = rw (lookup-assign p q node d, h)

pub content-assign_self :
    (p : Str) (node : Node) (d : Disk) → content p (assign p node d) ≡ text_of (some node)
content-assign_self p node d = rw (lookup-assign p p node d, ===_refl p)

-- A directory where nothing was is no file.
content-assign_folder :
    (q p : Str) (d : Disk) → lookup p d ≡ none → content q (assign p folder d) ≡ content q d
content-assign_folder q p d e = rw (lookup-assign p q folder d) (ground (arith, ===_iff p q, e))

module _ (os : Machine) (q : Str) where
  content-make_dir_at :
      (o : Option Node) (p : Str) (d : Disk)
      → lookup p d ≡ o
      → content q (make_dir_at os o p d).1 ≡ content q d
  unfolding make_dir_at
  content-make_dir_at none p d e = content-assign_folder q p d e
  content-make_dir_at (some folder) p d e = refl
  content-make_dir_at (some (file s t)) p d e = refl

  content-make_dirs : (ps : List Str) (d : Disk) → content q (make_dirs os ps d).1 ≡ content q d
  unfolding make_dirs
  content-make_dirs [] d = refl
  content-make_dirs (p ∷ ps) d = ground (
    arith,
    content-make_dir_at (lookup p d) p d refl,
    content-make_dirs ps (make_dir_at os (lookup p d) p d).1,
  )

  content-mkdir_unless :
      (e : Option GoError) (p : Str) (d : Disk) → content q (mkdir_unless os e p d).1 ≡ content q d
  unfolding mkdir_unless
  content-mkdir_unless none p d = content-make_dirs (ancestors [] p) d
  content-mkdir_unless (some e) p d = refl

  -- Directories are made without a change to any file.
  pub content-mkdir_all : (p : Str) (d : Disk) → content q (mkdir_all os p d).1 ≡ content q d
  unfolding mkdir_all
  content-mkdir_all p d = content-mkdir_unless (os.refused make_dir p d) p d

  content-create_at :
      (e : Option GoError) (o : Option Node) (p : Str) (d : Disk)
      → (p === q) ≡ false
      → content q (create_at os e o p d).1 ≡ content q d
  unfolding create_at
  content-create_at (some e) o p d h = refl
  content-create_at none (some folder) p d h = refl
  content-create_at none none p d h = content-assign_ne q p (file [] (os.now d)) d h
  content-create_at none (some (file s t)) p d h = content-assign_ne q p (file [] (os.now d)) d h

  pub content-create_file :
      (p : Str) (d : Disk) → (p === q) ≡ false → content q (create_file os p d).1 ≡ content q d
  unfolding create_file
  content-create_file p d h = content-create_at (os.refused create p d) (lookup p d) p d h

  content-copy_unless :
      (e : Option GoError) (p body : Str) (d : Disk)
      → (p === q) ≡ false
      → content q (copy_unless os e p body d).1 ≡ content q d
  unfolding copy_unless
  content-copy_unless none p body d h = content-assign_ne q p _ d h
  content-copy_unless (some e) p body d h = content-assign_ne q p _ d h

  pub content-copy_to :
      (p body : Str) (d : Disk)
      → (p === q) ≡ false
      → content q (copy_to os p body d).1 ≡ content q d
  unfolding copy_to
  content-copy_to p body d h = content-copy_unless (os.refused copy p d) p body d h

copied_unless :
    (os : Machine) (e : Option GoError) (p body : Str) (d : Disk)
    → (copy_unless os e p body d).0 ≡ ok tt
    → content p (copy_unless os e p body d).1 ≡ some body
unfolding copy_unless
copied_unless os none p body d h = content-assign_self p _ d
copied_unless os (some e) p body d h = cc

-- After a copy without error the file holds what was copied.
pub copy_to-content :
    (os : Machine) (p body : Str) (d : Disk)
    → (copy_to os p body d).0 ≡ ok tt
    → content p (copy_to os p body d).1 ≡ some body
unfolding copy_to
copy_to-content os p body d h = copied_unless os (os.refused copy p d) p body d h

-- However it ends, the action leaves the file at `q`, or its absence, as it was.
abbrev pub Keeps : {A : Type 0} → Str → Action A → Type 0
Keeps q m = (d : Disk) → content q (m d).1 ≡ content q d

Keeps-after :
    {A B : Type 0} (q : Str) (r : Result A) (d' : Disk) (f : A → Action B) {before : Option Str}
    → content q d' ≡ before
    → ((a : A) → Keeps q (f a))
    → content q (elim r as (λ _. Result B × Disk) [ ok a ↦ f a d' | err e ↦ (err e, d') ]).1
      ≡ before
Keeps-after q (ok a) d' f h g = g a d' ∙ h
Keeps-after q (err e) d' f h g = h

pub >>=-Keeps :
    {A B : Type 0} (q : Str) (m : Action A) (f : A → Action B)
    → Keeps q m
    → ((a : A) → Keeps q (f a))
    → Keeps q (m >>= f)
>>=-Keeps q m f h g d = Keeps-after q (m d).0 (m d).1 f (h d) g

lookup-without : (q p : Str) (d : Disk) → (p === q) ≡ false → lookup q (without p d) ≡ lookup q d
unfolding lookup without
lookup-without q p [] h = refl
lookup-without q p ((r, node) ∷ d) h =
    ground (arith, ===_iff r p, ===_iff r q, ===_iff p q, lookup-without q p d h)

-- The removal of a file touches no other path.
pub lookup-remove_file :
    (os : Machine) (q p : Str) (d : Disk)
    → (p === q) ≡ false
    → lookup q (remove_file os p d) ≡ lookup q d
unfolding remove_file
lookup-remove_file os q p d h = ground (arith, lookup-without q p d h)
