-- ===== src/Text/Path.antt =====
-- What the program calls of path and path/filepath (on Unix) and of the string searches: Base, Join,
-- Ext, Split, TrimPrefix, Trim.
pub mod Ext
use guangyang.Prelude.{
  ℕ, Bool, ◌&&◌, ◌||◌, not, List, [], ◌∷◌, ◌++◌, ◌==◌, ◌≡◌, refl, if◌then◌else◌,
}
use guangyang.Text.{Str, codes, ◌===◌, has_prefix}

abbrev pub slash : ℕ
slash = b'/'

-- The parts of `c ∷ s`, from those of `s`.
unfoldable pub split_step : ℕ → ℕ → List Str → List Str
split_step sep c [] = []
split_step sep c (p ∷ ps) = if c == sep then [] ∷ p ∷ ps else (c ∷ p) ∷ ps

-- strings.Split(s, sep) for a separator of one character.
unfoldable pub split : ℕ → Str → List Str
unfolding split_step
split sep [] = [] ∷ []
split sep (c ∷ s) = split_step sep c (split sep s)

-- strings.TrimLeft(s, "/")
unfoldable pub trim_left_slashes : Str → Str
trim_left_slashes [] = []
trim_left_slashes (c ∷ s) = if c == slash then trim_left_slashes s else c ∷ s

-- strings.TrimRight(s, "/")
unfoldable pub trim_right_slashes : Str → Str
trim_right_slashes [] = []
trim_right_slashes (c ∷ s) =
    let rest = trim_right_slashes s in if c == slash && rest === [] then [] else c ∷ rest

-- strings.Trim(s, "/")
unfoldable pub trim_slashes : Str → Str
unfolding trim_left_slashes trim_right_slashes ◌===◌
trim_slashes s = trim_right_slashes (trim_left_slashes s)

drop_all : Str → Str → Str
drop_all [] s = s
drop_all (p ∷ ps) [] = []
drop_all (p ∷ ps) (c ∷ s) = drop_all ps s

-- strings.TrimPrefix
unfoldable pub trim_prefix : Str → Str → Str
unfolding has_prefix drop_all
trim_prefix p s = if has_prefix p s then drop_all p s else s

unfoldable pub last_part : List Str → Str
last_part [] = []
last_part (p ∷ []) = p
last_part (p ∷ q ∷ ps) = last_part (q ∷ ps)

-- filepath.Base and path.Base
unfoldable pub base : Str → Str
unfolding split last_part trim_right_slashes ◌===◌
base s =
    let t = trim_right_slashes s in
    if s === [] then codes "." else if t === [] then codes "/" else last_part (split slash t)

-- One segment of a path in Clean; `kept` is what is kept so far, the last segment first.
unfoldable pub clean_segment : Bool → List Str → Str → List Str
unfolding ◌===◌
clean_segment rooted [] p =
    if p === [] || p === codes "." || (rooted && p === codes "..") then [] else p ∷ []
clean_segment rooted (q ∷ kept) p =
    if p === [] || p === codes "."
    then q ∷ kept
    else if p === codes ".." && not (q === codes "..")
    then kept
    else p ∷ q ∷ kept

unfoldable pub clean_segments : Bool → List Str → List Str → List Str
unfolding clean_segment
clean_segments rooted kept [] = kept
clean_segments rooted kept (p ∷ ps) = clean_segments rooted (clean_segment rooted kept p) ps

-- The segments, the last one first, with slashes between them and `out` behind.
unfoldable pub unsplit : List Str → Str → Str
unsplit [] out = out
unsplit (p ∷ []) out = p ++ out
unsplit (p ∷ q ∷ ps) out = unsplit (q ∷ ps) (slash ∷ (p ++ out))

-- filepath.Clean and path.Clean
unfoldable pub clean : Str → Str
unfolding split clean_segments unsplit has_prefix ◌===◌
clean s =
    let rooted = has_prefix (slash ∷ []) s in
    let out = unsplit (clean_segments rooted [] (split slash s)) [] in
    if rooted then slash ∷ out else if out === [] then codes "." else out

unfoldable pub join_parts : List Str → Str
unfolding ◌===◌
join_parts [] = []
join_parts (p ∷ ps) =
    let rest = join_parts ps in
    if p === [] then rest else if rest === [] then p else p ++ slash ∷ rest

-- filepath.Join and path.Join: empty elements are left out.
unfoldable pub join : List Str → Str
unfolding join_parts clean ◌===◌
join ps = let s = join_parts ps in if s === [] then [] else clean s

join_example : join (codes "./tmp" ∷ codes "compare_jobs" ∷ codes "../x" ∷ []) ≡ codes "tmp/x"
unfolding join
join_example = refl

base_example : base (codes "/a/b.xlsx/") ≡ codes "b.xlsx"
unfolding base
base_example = refl

-- The last dot and what follows it, if no slash follows; `found` is what was found so far.
unfoldable pub ext_from : Str → Str → Str
ext_from found [] = found
ext_from found (c ∷ s) = ext_from (if c == slash then [] else if c == b'.' then c ∷ s else found) s

-- filepath.Ext
unfoldable pub ext : Str → Str
unfolding ext_from
ext s = ext_from [] s

ext_example : ext (codes "a.b/c.tar.gz") ≡ codes ".gz"
unfolding ext
ext_example = refl
