-- ===== src/Houdini/HtmlRead.antt =====
-- Reading escaped text back: a reader for the six character references that the escapes use.
use mathlib.Core.Path.{subst, sym}
use cmark.Prelude.{
  ℕ, zero, suc, ◌<◌, ◌≡◌, ◌⊎◌, inl, inr, refl, Bool, true, false, not, ◌||◌, Option, none, some, [],
  ◌∷◌, ◌++◌, ◌==◌, if◌then◌else◌, Bool-cases, length, all_below, all_below_sound, Bytes, arith,
}
use cmark.Utf8.Valid.All.{AllBytes}
use cmark.Houdini.{html_escape_table, escape_code, html_escapes, html_safe, html_literal}
use cmark.Houdini.Html.{html_piece, html_escaped}
use cmark.Houdini.Loop.{escaped}

-- The text behind a prefix.
strip : Bytes → Bytes → Option Bytes
strip [] s = some s
strip (c ∷ p) [] = none
strip (c ∷ p) (d ∷ s) = if c == d then strip p s else none

abbrev or_else : Option (ℕ × Bytes) → Option (ℕ × Bytes) → Option (ℕ × Bytes)
or_else (some x) o = some x
or_else none o = o

-- A reference read as the byte `c`.
reference : Bytes → ℕ → Bytes → Option (ℕ × Bytes)
reference p c s = elim (strip p s) [ none ↦ none | some r ↦ some (c, r) ]

-- The six references; `s` starts behind the `&`.
read_reference : Bytes → Option (ℕ × Bytes)
read_reference s = or_else (reference (b'q' ∷ b'u' ∷ b'o' ∷ b't' ∷ b';' ∷ []) b'"' s) (
    or_else (reference (b'a' ∷ b'm' ∷ b'p' ∷ b';' ∷ []) b'&' s) (
      or_else (reference (b'#' ∷ b'3' ∷ b'9' ∷ b';' ∷ []) b'\'' s) (
        or_else (reference (b'#' ∷ b'4' ∷ b'7' ∷ b';' ∷ []) b'/' s) (
          or_else (reference (b'l' ∷ b't' ∷ b';' ∷ []) b'<' s)
            (reference (b'g' ∷ b't' ∷ b';' ∷ []) b'>' s)))))

read_one : Bytes → Option (ℕ × Bytes)
read_one [] = none
read_one (c ∷ s) = if c == b'&' then read_reference s else some (c, s)

-- A whole text, with a bound on its length.
pub read_all : ℕ → Bytes → Option Bytes
read_all zero s = none
read_all (suc fuel) [] = some []
read_all (suc fuel) (c ∷ s) = elim (read_one (c ∷ s)) [
  | none ↦ none
  | some (d, r) ↦ elim (read_all fuel r) [ none ↦ none | some ds ↦ some (d ∷ ds) ]
]

abbrev unit : Bool → ℕ → Bytes
unit secure c = if html_safe c then c ∷ [] else html_piece secure c

-- A byte that is put as it is is no `&`, and the others are the six.
abbrev pub special : ℕ → Bool
special c = c == b'"' || c == b'&' || c == b'\'' || c == b'/' || c == b'<' || c == b'>'

specials_table : all_below 256 (λ c. if special c then not (html_safe c) else html_safe c) ≡ true
unfolding all_below escape_code html_escape_table
specials_table = refl

pub safe-ne-amp : (c : ℕ) → c < 256 → special c ≡ false → html_safe c ≡ true
safe-ne-amp c h e = ground (
  arith,
  all_below_sound 256 (λ c. if special c then not (html_safe c) else html_safe c) c specials_table
      h,
)

pub special_cases :
    (c : ℕ)
    → special c ≡ true
    → (c ≡ b'"') ⊎ (c ≡ b'&') ⊎ (c ≡ b'\'') ⊎ (c ≡ b'/') ⊎ (c ≡ b'<') ⊎ (c ≡ b'>')
special_cases c h = ground arith

-- Reading back one escape of a special byte, at each of the six.
abbrev Reads : ℕ → Type 0
Reads c = (secure : Bool) (rest : Bytes) → read_one (unit secure c ++ rest) ≡ some (c, rest)

read_quot : Reads b'"'
unfolding read_one read_reference reference strip escape_code html_escape_table html_escapes
    html_piece html_literal
read_quot true rest = refl
read_quot false rest = refl

read_amp : Reads b'&'
unfolding read_one read_reference reference strip escape_code html_escape_table html_escapes
    html_piece html_literal
read_amp true rest = refl
read_amp false rest = refl

read_apos : Reads b'\''
unfolding read_one read_reference reference strip escape_code html_escape_table html_escapes
    html_piece html_literal
read_apos true rest = refl
read_apos false rest = refl

read_slash : Reads b'/'
unfolding read_one read_reference reference strip escape_code html_escape_table html_escapes
    html_piece html_literal
read_slash true rest = refl
read_slash false rest = refl

read_lt : Reads b'<'
unfolding read_one read_reference reference strip escape_code html_escape_table html_escapes
    html_piece html_literal
read_lt true rest = refl
read_lt false rest = refl

read_gt : Reads b'>'
unfolding read_one read_reference reference strip escape_code html_escape_table html_escapes
    html_piece html_literal
read_gt true rest = refl
read_gt false rest = refl

read_special : (c : ℕ) → special c ≡ true → Reads c
read_special c found = elim (special_cases c found) [
  | inl e ↦ subst Reads (sym e) read_quot
  | inr (inl e) ↦ subst Reads (sym e) read_amp
  | inr (inr (inl e)) ↦ subst Reads (sym e) read_apos
  | inr (inr (inr (inl e))) ↦ subst Reads (sym e) read_slash
  | inr (inr (inr (inr (inl e)))) ↦ subst Reads (sym e) read_lt
  | inr (inr (inr (inr (inr e)))) ↦ subst Reads (sym e) read_gt
]

read_one-unit :
    (secure : Bool) (c : ℕ) (rest : Bytes)
    → c < 256
    → read_one (unit secure c ++ rest) ≡ some (c, rest)
read_one-unit secure c rest h = elim (Bool-cases (special c)) [
  | inr plain ↦ rw (safe-ne-amp c h plain) (unfold read_one in ground arith)
  | inl found ↦ read_special c found secure rest
]

read_one-nil : (x : ℕ × Bytes) → ¬ (read_one [] ≡ some x)
unfolding read_one
read_one-nil x h = cc

read_all-cons :
    (fuel c : ℕ) (s r ds : Bytes)
    → read_one s ≡ some (c, r)
    → read_all fuel r ≡ some ds
    → read_all (suc fuel) s ≡ some (c ∷ ds)
unfolding read_all
read_all-cons fuel c [] r ds one rest = absurd (read_one-nil (c, r) one)
read_all-cons fuel c (d ∷ s) r ds one rest = rw (one, read_all) (rw rest)

-- Reading the character references of an escaped text, in either mode, gives back the text; the
-- reader's bound on the rounds is any number above the length of the text.
pub read_all-html_escaped :
    (secure : Bool) (src : Bytes) (fuel : ℕ)
    → AllBytes src
    → length src < fuel
    → read_all fuel (html_escaped secure src) ≡ some src
unfolding escaped
read_all-html_escaped secure src zero h enough = absurd (omega arith)
read_all-html_escaped secure [] (suc fuel) h enough = unfold read_all in refl
read_all-html_escaped secure (c ∷ cs) (suc fuel) h enough =
    read_all-cons fuel c (unit secure c ++ html_escaped secure cs) (html_escaped secure cs) cs
      (read_one-unit secure c (html_escaped secure cs) h.0)
      (read_all-html_escaped secure cs fuel h.1 (omega arith))
