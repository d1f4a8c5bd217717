-- ===== src/Houdini/Href.antt =====
-- What `houdini_escape_href` puts: ASCII text that cannot end an attribute.
use cmark.Prelude.{
  ℕ, ◌+◌, ◌≤◌, ◌≡◌, inl, inr, refl, Bool, true, not, ◌&&◌, ◌||◌, [], ◌∷◌, ◌++◌, ◌==◌, ltb,
  if◌then◌else◌, Bool-cases, length, all_below, all_below_sound, Bytes, arith,
}
use cmark.Alloc.{Libc}
use cmark.Buffer.{Strbuf, int32_max, puts}
use cmark.Buffer.Layout.{Holds, Ends}
use cmark.Buffer.Layout.Append.{put-Holds}
use cmark.Utf8.Valid.All.{AllBytes}
use cmark.Houdini.{href_safe_table, href_safe, hex_escape, href_escape_byte, escape_href}
use cmark.Houdini.Html.{all, all-append}
use cmark.Houdini.Loop.{escaped, Escapes, escape_loop-escaped}

-- What stands for a byte that is not safe.
unfoldable pub href_piece : ℕ → Bytes
href_piece c =
    if c == b'&'
    then b'&' ∷ b'a' ∷ b'm' ∷ b'p' ∷ b';' ∷ []
    else if c == b'\''
    then b'&' ∷ b'#' ∷ b'x' ∷ b'2' ∷ b'7' ∷ b';' ∷ []
    else hex_escape c

abbrev pub href_escaped : Bytes → Bytes
href_escaped = escaped href_safe href_piece

module _ ⦃libc : Libc⦄ where
  href_escape_byte-Escapes : Escapes href_safe href_piece href_escape_byte
  unfolding href_piece href_escape_byte puts
  href_escape_byte-Escapes b s c h small unsafe fits = elim (Bool-cases (c == b'&')) [
    | inl amp ↦ rw amp (put-Holds _ h (rw amp at fits))
    | inr other ↦ elim (Bool-cases (c == b'\'')) [
      | inl apos ↦ rw (other, apos) (put-Holds _ h (rw (other, apos) at fits))
      | inr hex ↦ rw (other, hex) (put-Holds _ h (rw (other, hex) at fits))
    ]
  ]

  -- houdini_escape_href appends exactly the escaped URL to what a buffer holds, where the whole
  -- stays within the range of int32_t, unless memory runs out or the code aborts on a length past
  -- its limit; it never faults and always ends.
  pub escape_href-escaped :
      (b : Strbuf) (s src : Bytes)
      → Holds b s
      → AllBytes src
      → length s + length (href_escaped src) ≤ int32_max
      → Ends
          (length s + length (href_escaped src))
          (λ b'. Holds b' (s ++ href_escaped src))
          (escape_href b src)
  unfolding escape_href
  escape_href-escaped b s src h bytes fits =
      escape_loop-escaped href_safe href_piece href_escape_byte href_escape_byte-Escapes
        (length src + 1) b s src (omega arith) h bytes fits

-- A byte that may stand in a quoted attribute: printable ASCII but no quotation mark, apostrophe,
-- angle bracket, backslash or space.
unfoldable pub in_attribute : ℕ → Bool
in_attribute c =
    ltb 32 c && ltb c 127 && not (c == b'"' || c == b'\'' || c == b'<' || c == b'>' || c == b'\\')

abbrev href_unit : ℕ → Bytes
href_unit c = if href_safe c then c ∷ [] else href_piece c

href_units : all_below 256 (λ c. all in_attribute (href_unit c)) ≡ true
unfolding all_below all in_attribute href_piece href_safe href_safe_table hex_escape
href_units = refl

-- Every byte of an escaped URL is printable ASCII but no quotation mark, apostrophe, angle bracket,
-- backslash or space.
pub href_escaped-in_attribute :
    (src : Bytes) → AllBytes src → all in_attribute (href_escaped src) ≡ true
unfolding escaped
href_escaped-in_attribute [] h = unfold all in refl
href_escaped-in_attribute (c ∷ cs) h =
    all-append in_attribute (href_unit c) (href_escaped cs)
      (all_below_sound 256 (λ c. all in_attribute (href_unit c)) c href_units h.0)
      (href_escaped-in_attribute cs h.1)
