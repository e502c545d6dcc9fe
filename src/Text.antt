-- ===== src/Text.antt =====
-- Go strings, and what the program calls of the packages strings and unicode/utf8. A string is the
-- list of its code points; the program's texts are valid UTF-8, of which this is a view with nothing
-- lost.
pub mod Blank
pub mod Decimal
pub mod Path
pub mod Trim
use Prim.Native.Char.{code}
use guangyang.Prelude.{
  ℕ, ◌+◌, ◌-◌, ◌≡◌, refl, ◌↔◌, Bool, true, false, ◌&&◌, ◌||◌, List, [], ◌∷◌, arith, leb, ◌==◌,
  if◌then◌else◌, String,
}

abbrev pub Str : Type 0
Str = List ℕ

-- A literal.
abbrev pub codes : String → Str
codes String.[] = []
codes (String.◌∷◌ c s) = code c ∷ codes s

infix 50 ◌===◌
unfoldable pub ◌===◌ : Str → Str → Bool
[] === [] = true
[] === (d ∷ t) = false
(c ∷ s) === [] = false
(c ∷ s) === (d ∷ t) = c == d && s === t

pub ===_refl : (s : Str) → (s === s) ≡ true
unfolding ◌===◌
===_refl [] = refl
===_refl (c ∷ s) = ground (arith, ===_refl s)

pub ===_sound : (s t : Str) → (s === t) ≡ true → s ≡ t
unfolding ◌===◌
===_sound [] [] h = refl
===_sound [] (d ∷ t) h = ground arith
===_sound (c ∷ s) [] h = ground arith
===_sound (c ∷ s) (d ∷ t) h = ground (arith, ===_sound s t)

pub ===_iff : (s t : Str) → ((s === t) ≡ true) ↔ (s ≡ t)
===_iff s t = (===_sound s t, λ e. ground (arith, ===_refl s))

-- unicode.IsSpace
unfoldable pub is_space : ℕ → Bool
is_space c =
    (leb 9 c && leb c 13)
    || c == 0x20
    || c == 0x85
    || c == 0xa0
    || c == 0x1680
    || (leb 0x2000 c && leb c 0x200a)
    || c == 0x2028
    || c == 0x2029
    || c == 0x202f
    || c == 0x205f
    || c == 0x3000

-- strings.TrimLeftFunc with unicode.IsSpace
unfoldable pub trim_left : Str → Str
unfolding is_space
trim_left [] = []
trim_left (c ∷ s) = if is_space c then trim_left s else c ∷ s

-- strings.TrimRightFunc with unicode.IsSpace: a space stays if something that is no space follows.
unfoldable pub trim_right : Str → Str
unfolding is_space
trim_right [] = []
trim_right (c ∷ s) = let rest = trim_right s in if is_space c && rest === [] then [] else c ∷ rest

-- strings.TrimSpace
unfoldable pub trim_space : Str → Str
unfolding trim_left trim_right ◌===◌
trim_space s = trim_right (trim_left s)

-- `strings.TrimSpace(s) == ""`
unfoldable pub is_blank : Str → Bool
unfolding trim_space ◌===◌
is_blank s = trim_space s === []

-- strings.ToUpper and strings.ToLower on ASCII. The program compares the results with ASCII words, or
-- searches them for such; the code points beyond ASCII that change into ASCII letters are written out.
unfoldable pub to_upper : Str → Str
to_upper [] = []
to_upper (c ∷ s) =
    (if leb b'a' c && leb c b'z'
      then c - 32
      else if c == 0x131
      then b'I'
      else if c == 0x17f
      then b'S'
      else c)
    ∷ to_upper s

unfoldable pub to_lower : Str → Str
to_lower [] = []
to_lower (c ∷ s) =
    (if leb b'A' c && leb c b'Z'
      then c + 32
      else if c == 0x130
      then b'i'
      else if c == 0x212a
      then b'k'
      else c)
    ∷ to_lower s

-- strings.HasPrefix(s, p)
unfoldable pub has_prefix : Str → Str → Bool
has_prefix [] s = true
has_prefix (p ∷ ps) [] = false
has_prefix (p ∷ ps) (c ∷ s) = p == c && has_prefix ps s

-- strings.Contains(s, p)
unfoldable pub contains : Str → Str → Bool
unfolding has_prefix
contains p [] = has_prefix p []
contains p (c ∷ s) = has_prefix p (c ∷ s) || contains p s

trim_space-nil : trim_space [] ≡ []
unfolding trim_space
trim_space-nil = refl

trim_example : trim_space (codes "  a b\n") ≡ codes "a b"
unfolding trim_space
trim_example = refl
