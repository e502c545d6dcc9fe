-- ===== src/Disk.antt =====
-- The file system as gobackend/wechat and gobackend/compare/service.go use it: a disk of nodes under
-- their cleaned paths, and the calls of package os as actions that change it. `Machine` holds what the
-- program cannot know: the environment, which calls the system refuses, and how an archive unpacks.
pub mod Contents
use guangyang.Prelude.{
  ℕ, ◌≡◌, Bool, true, false, ◌&&◌, not, Option, none, some, List, [], ◌∷◌, ◌++◌, ◌==◌, take,
  if◌then◌else◌, is_some,
}
use guangyang.Text.{Str, codes, ◌===◌, has_prefix, contains}
use guangyang.Text.Path.{slash, clean, trim_prefix}
use guangyang.Errors.{GoError, new, Result, ok, err}
use guangyang.Excel.StrMap.{StrMap, lookup, assign}
use guangyang.Excel.Sorting.{str_leb}

-- A file has a content and a time of its last change.
pub data Node : Type 0 where
  file : Str → ℕ → Node
  folder : Node

abbrev pub Disk : Type 0
Disk = StrMap Node

-- The calls that the system may refuse: for lack of rights, of space, or of a directory.
pub data Op : Type 0 where
  stat read read_dir info open_zip open_entry make_dir create copy unlink : Op

-- zip.File: its name, whether it is a directory, and what its reader yields.
pub record Entry : Type 0 where
  pub name : Str
  pub is_dir : Bool
  pub body : Str

-- fs.DirEntry with the time of its FileInfo.
pub record DirEntry : Type 0 where
  pub name : Str
  pub is_dir : Bool
  pub mtime : ℕ

pub record Machine : Type 0 where
  pub env : Str → Str  -- os.Getenv
  pub refused : Op → Str → Disk → Option GoError
  pub absent : Op → Str → GoError  -- the error for a path that is not there, or is no file
  pub written : Str → Disk → ℕ  -- what a copy that fails has written, in characters
  pub now : Disk → ℕ  -- the time of a write
  pub unzip : Str → Result (List Entry)  -- zip.NewReader over the content of a file

-- What is done to a disk: it comes back after an error too, since what was written stays.
abbrev pub Action : Type 0 → Type 0
Action A = Disk → Result A × Disk

infixl 5 ◌>>=◌ ◌>>◌
abbrev pub ◌>>=◌ : {A B : Type 0} → Action A → (A → Action B) → Action B
◌>>=◌ m f d = let (r, d') = m d in elim r [ ok a ↦ f a d' | err e ↦ (err e, d') ]

abbrev pub ◌>>◌ : {B : Type 0} → Action Unit → Action B → Action B
m >> k = m >>= λ _. k

abbrev pub or_fail : {A : Type 0} → Option A → GoError → Result A
or_fail none e = err e
or_fail (some a) e = ok a

-- A call that reads, unless it is refused.
abbrev pub unless_refused : {A : Type 0} → Option GoError → Result A → Result A
unless_refused none r = r
unless_refused (some e) r = err e

abbrev pub is_file : Option Node → Bool
is_file none = false
is_file (some (file s t)) = true
is_file (some folder) = false

abbrev pub is_folder : Node → Bool
is_folder (file s t) = false
is_folder folder = true

abbrev pub time_of : Node → ℕ
time_of (file s t) = t
time_of folder = 0

abbrev pub text_of : Option Node → Option Str
text_of none = none
text_of (some (file s t)) = some s
text_of (some folder) = none

-- The content of a file.
abbrev pub content : Str → Disk → Option Str
content p d = text_of (lookup p d)

-- The text up to and with the last slash.
unfoldable pub up_to_slash : Str → Str
up_to_slash [] = []
up_to_slash (c ∷ s) =
    let rest = up_to_slash s in
    if c == slash then c ∷ rest else if rest === [] then [] else c ∷ rest

-- filepath.Dir
unfoldable pub dir : Str → Str
unfolding up_to_slash ◌===◌
dir p = clean (up_to_slash p)

-- The path and the directories above it, outermost first; `front` is what was read of it.
unfoldable pub ancestors : Str → Str → List Str
unfolding ◌===◌
ancestors front [] = front ∷ []
ancestors front (c ∷ s) =
    let rest = ancestors (front ++ c ∷ []) s in
    if c == slash && not (front === []) then front ∷ rest else rest

-- The entries of a directory, in the order of their names.
unfoldable pub insert_entry : DirEntry → List DirEntry → List DirEntry
unfolding str_leb
insert_entry e [] = e ∷ []
insert_entry e (f ∷ fs) = if str_leb e.name f.name then e ∷ f ∷ fs else f ∷ insert_entry e fs

unfoldable pub children : Str → Disk → List DirEntry
unfolding insert_entry contains has_prefix trim_prefix ◌===◌
children parent [] = []
children parent ((p, node) ∷ d) =
    let name = trim_prefix (parent ++ slash ∷ []) p in
    let rest = children parent d in
    if has_prefix (parent ++ slash ∷ []) p && not (name === []) && not (contains (slash ∷ []) name)
    then insert_entry (record { name = name; is_dir = is_folder node; mtime = time_of node }) rest
    else rest

-- The disk with nothing at a path.
unfoldable pub without : Str → Disk → Disk
unfolding ◌===◌
without p [] = []
without p ((q, node) ∷ d) = if q === p then without p d else (q, node) ∷ without p d

module _ (os : Machine) where
  -- os.Stat gives no error, and a node that is no directory.
  unfoldable pub stat_file : Str → Disk → Bool
  unfolding lookup
  stat_file p d = not (is_some (os.refused stat p d)) && is_file (lookup p d)

  -- os.ReadFile
  unfoldable pub read_file : Str → Disk → Result Str
  unfolding lookup
  read_file p d = unless_refused (os.refused read p d) (or_fail (content p d) (os.absent read p))

  -- os.ReadDir
  unfoldable pub list_dir : Str → Disk → List DirEntry
  unfolding children
  list_dir p d = if is_some (os.refused read_dir p d) then [] else children p d

  -- One directory of os.MkdirAll, by what is at its path.
  unfoldable pub make_dir_at : Option Node → Str → Action Unit
  unfolding assign
  make_dir_at none p d = (ok tt, assign p folder d)
  make_dir_at (some folder) p d = (ok tt, d)
  make_dir_at (some (file s t)) p d = (err (os.absent make_dir p), d)

  unfoldable pub make_dirs : List Str → Action Unit
  unfolding make_dir_at lookup
  make_dirs [] d = (ok tt, d)
  make_dirs (p ∷ ps) d = (make_dir_at (lookup p d) p >> make_dirs ps) d

  unfoldable pub mkdir_unless : Option GoError → Str → Action Unit
  unfolding make_dirs ancestors
  mkdir_unless none p d = make_dirs (ancestors [] p) d
  mkdir_unless (some e) p d = (err e, d)

  -- os.MkdirAll
  unfoldable pub mkdir_all : Str → Action Unit
  unfolding mkdir_unless
  mkdir_all p d = mkdir_unless (os.refused make_dir p d) p d

  unfoldable pub create_at : Option GoError → Option Node → Str → Action Unit
  unfolding assign
  create_at (some e) _ p d = (err e, d)
  create_at none (some folder) p d = (err (os.absent create p), d)
  create_at none none p d = (ok tt, assign p (file [] (os.now d)) d)
  create_at none (some (file s t)) p d = (ok tt, assign p (file [] (os.now d)) d)

  -- os.Create: an empty file, also in place of one.
  unfoldable pub create_file : Str → Action Unit
  unfolding create_at lookup
  create_file p d = create_at (os.refused create p d) (lookup p d) p d

  unfoldable pub copy_unless : Option GoError → Str → Str → Action Unit
  unfolding assign
  copy_unless none p body d = (ok tt, assign p (file body (os.now d)) d)
  copy_unless (some e) p body d = (err e, assign p (file (take (os.written p d) body) (os.now d)) d)

  -- io.Copy into the file that was created.
  unfoldable pub copy_to : Str → Str → Action Unit
  unfolding copy_unless
  copy_to p body d = copy_unless (os.refused copy p d) p body d

  -- zip.OpenReader
  unfoldable pub open_zip_reader : Str → Disk → Result (List Entry)
  unfolding lookup
  open_zip_reader p d =
      unless_refused (os.refused open_zip p d)
        (elim (content p d) [ none ↦ err (os.absent open_zip p) | some s ↦ os.unzip s ])

  -- os.Remove of a file, whose error is dropped.
  unfoldable pub remove_file : Str → Disk → Disk
  unfolding without
  remove_file p d = if is_some (os.refused unlink p d) then d else without p d
