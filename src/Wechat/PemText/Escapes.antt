-- ===== src/Wechat/PemText/Escapes.antt =====
-- Line ends survive the ways in which they are written in a setting.
use guangyang.Prelude.{
  ℕ, suc, ◌-◌, ◌≡◌, refl, true, false, [], ◌∷◌, ◌++◌, ◌==◌, ==_iff, arith, ap, sym, ◌∙◌, length,
  Bool-cases, inl, inr, if◌then◌else◌,
}
use guangyang.Text.{Str, codes, has_prefix}
use guangyang.Wechat.PemText.{
  newline, escaped, double_escaped, replace_from, replace_all, unescape_newlines,
}

-- The text with each line end written as `mark`.
pub write_newlines : Str → Str → Str
write_newlines mark [] = []
write_newlines mark (c ∷ s) =
    let rest = write_newlines mark s in if c == b'\n' then mark ++ rest else c ∷ rest

-- The character does not occur.
abbrev pub Lacks : ℕ → Str → Type 0
Lacks x [] = Unit {0}
Lacks x (c ∷ s) = ((c == x) ≡ false) × Lacks x s

Lacks-append : (x : ℕ) (s t : Str) → Lacks x s → Lacks x t → Lacks x (s ++ t)
Lacks-append x [] t hs ht = ht
Lacks-append x (c ∷ s) t hs ht = (hs.0, Lacks-append x s t hs.1 ht)

Lacks-write_newlines :
    (x : ℕ) (mark s : Str) → Lacks x mark → Lacks x s → Lacks x (write_newlines mark s)
unfolding write_newlines
Lacks-write_newlines x mark [] hm h = tt
Lacks-write_newlines x mark (c ∷ s) hm h = elim (Bool-cases (c == b'\n')) [
  | inl ends ↦ rw ends (Lacks-append x mark _ hm (Lacks-write_newlines x mark s hm h.1))
  | inr stays ↦ rw stays (h.0, Lacks-write_newlines x mark s hm h.1)
]

-- A character that begins no mark stays.
replace-step :
    (x : ℕ) (old by : Str) (c : ℕ) (s : Str)
    → (c == x) ≡ false
    → replace_from (x ∷ old) by 0 (c ∷ s) ≡ c ∷ replace_from (x ∷ old) by 0 s
unfolding replace_from has_prefix
replace-step x old by c s h = ground arith

-- Nothing is replaced in a text without the first character of what is looked for.
replace-Lacks : (x : ℕ) (old by s : Str) → Lacks x s → replace_from (x ∷ old) by 0 s ≡ s
unfolding replace_from
replace-Lacks x old by [] h = refl
replace-Lacks x old by (c ∷ s) h =
    replace-step x old by c s h.0 ∙ ap (λ t. c ∷ t) (replace-Lacks x old by s h.1)

skip-append : (old by t s : Str) → replace_from old by (length t) (t ++ s) ≡ replace_from old by 0 s
unfolding replace_from
skip-append old by [] s = refl
skip-append old by (c ∷ t) s = skip-append old by t s

has_prefix-append : (p s : Str) → has_prefix p (p ++ s) ≡ true
unfolding has_prefix
has_prefix-append [] s = refl
has_prefix-append (c ∷ p) s = ground (arith, has_prefix-append p s)

-- A mark at the front is replaced.
replace-mark :
    (x : ℕ) (old by s : Str)
    → replace_from (x ∷ old) by 0 ((x ∷ old) ++ s) ≡ by ++ replace_from (x ∷ old) by 0 s
unfolding replace_from
replace-mark x old by s =
    let k : suc (length old) - 1 ≡ length old = omega arith in
    rw ((==_iff x x).1 refl, has_prefix-append old s, k, skip-append (x ∷ old) by old s)

replace-nil : (old by : Str) → replace_from old by 0 [] ≡ []
unfolding replace_from
replace-nil old by = refl

-- What was written as a mark is read as a line end again.
replace-write_newlines :
    (x : ℕ) (old s : Str)
    → Lacks x s
    → replace_from (x ∷ old) newline 0 (write_newlines (x ∷ old) s) ≡ s
unfolding write_newlines
replace-write_newlines x old [] h = replace-nil (x ∷ old) newline
replace-write_newlines x old (c ∷ s) h = elim (Bool-cases (c == b'\n')) [
  | inl ends ↦ rw ends (
      replace-mark x old newline (write_newlines (x ∷ old) s)
      ∙ ap (λ t. b'\n' ∷ t) (replace-write_newlines x old s h.1)
      ∙ ap (λ k. k ∷ s) (sym ((==_iff c b'\n').0 ends)))
  | inr stays ↦ rw stays (
      replace-step x old newline c (write_newlines (x ∷ old) s) h.0
      ∙ ap (λ t. c ∷ t) (replace-write_newlines x old s h.1))
]

-- One backslash before each n is not taken for two.
escape-step :
    (s : Str)
    → replace_from double_escaped newline 0 (escaped ++ s)
      ≡ escaped ++ replace_from double_escaped newline 0 s
unfolding replace_from has_prefix
escape-step s = refl

double-escaped :
    (s : Str)
    → Lacks b'\\' s
    → replace_from double_escaped newline 0 (write_newlines escaped s) ≡ write_newlines escaped s
unfolding write_newlines
double-escaped [] h = replace-nil double_escaped newline
double-escaped (c ∷ s) h = elim (Bool-cases (c == b'\n')) [
  | inl ends ↦
      rw ends
        (escape-step (write_newlines escaped s) ∙ ap (λ t. escaped ++ t) (double-escaped s h.1))
  | inr stays ↦ rw stays (
      replace-step b'\\' (codes "\\n") newline c (write_newlines escaped s) h.0
      ∙ ap (λ t. c ∷ t) (double-escaped s h.1))
]

-- A text without backslashes and carriage returns is read the same from a setting in which its line
-- ends are written as a backslash and an n, as two backslashes and an n, or as those of Windows.
pub unescape_newlines-write_newlines :
    (s : Str)
    → Lacks b'\\' s
    → Lacks b'\r' s
    → (unescape_newlines (write_newlines escaped s) ≡ s)
      × (unescape_newlines (write_newlines double_escaped s) ≡ s)
      × (unescape_newlines (write_newlines (b'\r' ∷ b'\n' ∷ []) s) ≡ s)
unfolding unescape_newlines replace_all
unescape_newlines-write_newlines s hb hr = (
  rw
      (
        replace-Lacks b'\r' (b'\n' ∷ []) newline (write_newlines escaped s)
            (Lacks-write_newlines b'\r' escaped s (refl, (refl, tt)) hr),
        double-escaped s hb,
      )
      (replace-write_newlines b'\\' (codes "n") s hb),
  rw
      (
        replace-Lacks b'\r' (b'\n' ∷ []) newline (write_newlines double_escaped s)
            (Lacks-write_newlines b'\r' double_escaped s (refl, (refl, (refl, tt))) hr),
        replace-write_newlines b'\\' (codes "\\n") s hb,
      )
      (replace-Lacks b'\\' (codes "n") newline s hb),
  rw
      (
        replace-write_newlines b'\r' (b'\n' ∷ []) s hr,
        replace-Lacks b'\\' (codes "\\n") newline s hb,
      )
      (replace-Lacks b'\\' (codes "n") newline s hb),
)
