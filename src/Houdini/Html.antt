-- ===== src/Houdini/Html.antt =====
-- What `houdini_escape_html0` puts: text that holds no markup and from which the source can be read.
use mathlib.Core.Path.{subst}
use cmark.Prelude.{
  ℕ, ◌+◌, ◌≤◌, ◌<◌, ◌≡◌, inl, inr, refl, Bool, true, false, not, ◌&&◌, ◌||◌, [], ◌∷◌, ◌++◌, ◌==◌,
  if◌then◌else◌, Bool-cases, length, get_or, low_bits, all_below, all_below_sound, Bytes, arith,
}
use cmark.Alloc.{Libc}
use cmark.Buffer.{Strbuf, int32_max, puts, putc}
use cmark.Buffer.Layout.{Holds, Ends}
use cmark.Buffer.Layout.Append.{put-Holds, putc-Holds}
use cmark.Utf8.Valid.All.{AllBytes}
use cmark.Houdini.{
  html_escape_table, escape_code, html_escapes, html_safe, html_literal, html_escape_byte,
  escape_html0,
}
use cmark.Houdini.Loop.{escaped, Escapes, escape_loop-escaped}

-- What stands for a byte that is not safe.
unfoldable pub html_piece : Bool → ℕ → Bytes
html_piece secure c =
    if html_literal secure c then c ∷ [] else get_or html_escapes (escape_code c) []

abbrev pub html_escaped : Bool → Bytes → Bytes
html_escaped secure = escaped html_safe (html_piece secure)

module _ ⦃libc : Libc⦄ (secure : Bool) where
  html_escape_byte-Escapes : Escapes html_safe (html_piece secure) (html_escape_byte secure)
  unfolding html_piece html_escape_byte puts
  html_escape_byte-Escapes b s c h small unsafe fits = elim (Bool-cases (html_literal secure c)) [
    | inl as_is ↦
        let same : low_bits c 8 ≡ c = omega arith in
        let room : length s + 1 ≤ int32_max = rw as_is at fits in
        rw as_is (
          subst (λ v. Ends (length s + 1) (λ b'. Holds b' (s ++ v ∷ [])) (putc b c)) same
            (putc-Holds c h room))
    | inr entity ↦
        let room : length s + length (get_or html_escapes (escape_code c) []) ≤ int32_max =
          rw entity at fits in
        rw entity (put-Holds (get_or html_escapes (escape_code c) []) h room)
  ]

  -- houdini_escape_html0 appends exactly the escaped text to what a buffer holds, where the whole
  -- stays within the range of int32_t, unless memory runs out or the code aborts on a length past
  -- its limit; it never faults and always ends.
  pub escape_html0-escaped :
      (b : Strbuf) (s src : Bytes)
      → Holds b s
      → AllBytes src
      → length s + length (html_escaped secure src) ≤ int32_max
      → Ends
          (length s + length (html_escaped secure src))
          (λ b'. Holds b' (s ++ html_escaped secure src))
          (escape_html0 b src secure)
  unfolding escape_html0
  escape_html0-escaped b s src h bytes fits =
      escape_loop-escaped html_safe (html_piece secure) (html_escape_byte secure)
        html_escape_byte-Escapes (length src + 1) b s src (omega arith) h bytes fits

-- Whether every byte passes a test.
unfoldable pub all : (ℕ → Bool) → Bytes → Bool
all p [] = true
all p (c ∷ cs) = p c && all p cs

pub all-append :
    (p : ℕ → Bool) (s t : Bytes) → all p s ≡ true → all p t ≡ true → all p (s ++ t) ≡ true
unfolding all
all-append p [] t h k = k
all-append p (c ∷ s) t h k = ground (arith, all-append p s t)

-- No byte of the text is a quotation mark or an angle bracket.
unfoldable pub no_markup : ℕ → Bool
no_markup c = not (c == b'"' || c == b'<' || c == b'>')

abbrev html_unit : Bool → ℕ → Bytes
html_unit secure c = if html_safe c then c ∷ [] else html_piece secure c

html_units_secure : all_below 256 (λ c. all no_markup (html_unit true c)) ≡ true
unfolding all_below all no_markup html_piece html_literal escape_code html_escape_table html_escapes
html_units_secure = refl

html_units : all_below 256 (λ c. all no_markup (html_unit false c)) ≡ true
unfolding all_below all no_markup html_piece html_literal escape_code html_escape_table html_escapes
html_units = refl

html_unit-no_markup : (secure : Bool) (c : ℕ) → c < 256 → all no_markup (html_unit secure c) ≡ true
html_unit-no_markup true c h = all_below_sound 256 _ c html_units_secure h
html_unit-no_markup false c h = all_below_sound 256 _ c html_units h

-- An escaped text of bytes has no quotation mark and no angle bracket, in either mode.
pub html_escaped-no_markup :
    (secure : Bool) (src : Bytes) → AllBytes src → all no_markup (html_escaped secure src) ≡ true
unfolding escaped
html_escaped-no_markup secure [] h = unfold all in refl
html_escaped-no_markup secure (c ∷ cs) h =
    all-append no_markup (html_unit secure c) (html_escaped secure cs)
      (html_unit-no_markup secure c h.0) (html_escaped-no_markup secure cs h.1)
