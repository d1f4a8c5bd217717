-- ===== src/Houdini.antt =====
-- houdini_html_e.c and houdini_href_e.c: escaping text for HTML and for URLs in HTML. Both walk the
-- text `(src, size)` with the same loop, written once here over what differs.
use cmark.Prelude.{
  ℕ, zero, suc, ◌+◌, ◌-◌, ◌/◌, ◌%◌, Bool, true, false, not, ◌&&◌, ◌||◌, List, [], ◌∷◌, ◌++◌, ◌==◌,
  ltb, leb, if◌then◌else◌, length, take, drop, get_or, replicate, Bytes, low_bits, shr, Run, ok,
  out_of_fuel, ◌>>=◌,
}
use cmark.Alloc.{Libc}
use cmark.Buffer.{Strbuf, put, puts, putc}
pub mod Loop
pub mod Html
pub mod HtmlRead
pub mod Href
pub mod Unescape

-- The bytes that are passed over by `while (i < size && safe(src[i])) i++`.
unfoldable pub run_length : (ℕ → Bool) → Bytes → ℕ
run_length safe [] = 0
run_length safe (c ∷ cs) = let rest = run_length safe cs in if safe c then rest + 1 else 0

-- The outer loop, on the bytes from `src + i` on: a run of safe bytes is put as it is, and the byte
-- behind it by `escape`. Each round passes over a byte at least.
module _ ⦃libc : Libc⦄ where
  unfoldable pub escape_loop :
      (ℕ → Bool) → (Strbuf → ℕ → Run Strbuf) → ℕ → Strbuf → Bytes → Run Strbuf
  escape_loop safe escape zero ob src = out_of_fuel
  escape_loop safe escape (suc fuel) ob [] = ok ob
  escape_loop safe escape (suc fuel) ob (c ∷ cs) = do
    let n = run_length safe (c ∷ cs)
    ob' ← if ltb 0 n then put ob (take n (c ∷ cs)) else ok ob
    elim (drop n (c ∷ cs)) [
      | [] ↦ ok ob'
      | d ∷ ds ↦ escape ob' d >>= λ ob''. escape_loop safe escape fuel ob'' ds
    ]

-- `HTML_ESCAPE_TABLE`
unfoldable pub html_escape_table : List ℕ
html_escape_table =
    replicate 34 0
    ++ (1 ∷ replicate 3 0
        ++ (2 ∷ 3 ∷ replicate 7 0 ++ (4 ∷ replicate 12 0 ++ (5 ∷ 0 ∷ 6 ∷ replicate 193 0))))

unfoldable pub escape_code : ℕ → ℕ
escape_code c = get_or html_escape_table c 0

-- `HTML_ESCAPES`
unfoldable pub html_escapes : List Bytes
html_escapes =
    []
    ∷ (b'&' ∷ b'q' ∷ b'u' ∷ b'o' ∷ b't' ∷ b';' ∷ [])
    ∷ (b'&' ∷ b'a' ∷ b'm' ∷ b'p' ∷ b';' ∷ [])
    ∷ (b'&' ∷ b'#' ∷ b'3' ∷ b'9' ∷ b';' ∷ [])
    ∷ (b'&' ∷ b'#' ∷ b'4' ∷ b'7' ∷ b';' ∷ [])
    ∷ (b'&' ∷ b'l' ∷ b't' ∷ b';' ∷ [])
    ∷ (b'&' ∷ b'g' ∷ b't' ∷ b';' ∷ [])
    ∷ []

abbrev pub html_safe : ℕ → Bool
html_safe c = escape_code c == 0

-- Whether the byte is put as it is although it has an escape.
unfoldable pub html_literal : Bool → ℕ → Bool
html_literal secure c = (c == b'/' || c == b'\'') && not secure

module _ ⦃libc : Libc⦄ where
  unfoldable pub html_escape_byte : Bool → Strbuf → ℕ → Run Strbuf
  html_escape_byte secure ob c =
      if html_literal secure c then putc ob c else puts ob (get_or html_escapes (escape_code c) [])

  unfoldable pub escape_html0 : Strbuf → Bytes → Bool → Run Strbuf
  escape_html0 ob src secure =
      escape_loop html_safe (html_escape_byte secure) (length src + 1) ob src

  unfoldable pub escape_html : Strbuf → Bytes → Run Strbuf
  escape_html ob src = escape_html0 ob src true

-- `HREF_SAFE`
unfoldable pub href_safe_table : List ℕ
href_safe_table =
    replicate 33 0
    ++ (1 ∷ 0 ∷ 1 ∷ 1 ∷ 1 ∷ 0 ∷ 0 ∷ replicate 20 1
        ++ (0 ∷ 1 ∷ 0 ∷ replicate 28 1
            ++ (0 ∷ 0 ∷ 0 ∷ 0 ∷ 1 ∷ 0 ∷ replicate 26 1 ++ replicate 133 0)))

unfoldable pub href_safe : ℕ → Bool
href_safe c = not (get_or href_safe_table c 0 == 0)

abbrev pub hex_chars : Bytes
hex_chars =
    b'0' ∷ b'1' ∷ b'2' ∷ b'3' ∷ b'4' ∷ b'5' ∷ b'6' ∷ b'7' ∷ b'8' ∷ b'9' ∷ b'A' ∷ b'B' ∷ b'C' ∷ b'D'
    ∷ b'E' ∷ b'F' ∷ []

-- `hex_str`
unfoldable pub hex_escape : ℕ → Bytes
hex_escape c =
    b'%' ∷ get_or hex_chars (low_bits (shr c 4) 4) 0 ∷ get_or hex_chars (low_bits c 4) 0 ∷ []

module _ ⦃libc : Libc⦄ where
  unfoldable pub href_escape_byte : Strbuf → ℕ → Run Strbuf
  href_escape_byte ob c =
      if c == b'&'
      then puts ob (b'&' ∷ b'a' ∷ b'm' ∷ b'p' ∷ b';' ∷ [])
      else if c == b'\''
      then puts ob (b'&' ∷ b'#' ∷ b'x' ∷ b'2' ∷ b'7' ∷ b';' ∷ [])
      else put ob (hex_escape c)

  unfoldable pub escape_href : Strbuf → Bytes → Run Strbuf
  escape_href ob src = escape_loop href_safe href_escape_byte (length src + 1) ob src
