-- ===== src/Houdini/Unescape.antt =====
-- houdini_html_u.c: reading character references. The table of named entities, which a tool writes
-- into entities.inc, is a parameter: its entries in order, each a C string and the bytes it stands for.
use cmark.Prelude.{
  ℕ, zero, suc, ◌+◌, ◌-◌, ◌*◌, ◌/◌, ◌%◌, bit_or, Bool, true, false, not, ◌&&◌, ◌||◌, Option, none,
  some, List, [], ◌∷◌, ◌++◌, ◌==◌, ltb, leb, if◌then◌else◌, length, get_elem?, take, drop, Bytes,
  load, Run, ok, fault, out_of_fuel, ◌>>=◌,
}
use cmark.Prelude.Int.{ℤ, pos, negsuc}
use cmark.Alloc.{Libc}
use cmark.Buffer.{Strbuf, grow, put, puts, putc}
use cmark.Utf8.{encode_char}
use cmark.Houdini.{run_length}
pub mod Lookup
pub mod Read
pub mod RoundTrip

-- `struct cmark_entity_node`
pub record Entity : Type 0 where
  pub name : Bytes
  pub bytes : Bytes

-- `strncmp(s, name, len)` for the `len` bytes `s` and a C string; only the sign is specified.
unfoldable pub strncmp : Bytes → Bytes → ℤ
strncmp [] name = pos 0
strncmp (c ∷ s) [] = if c == 0 then pos 0 else pos 1
strncmp (c ∷ s) (d ∷ name) =
    let rest = strncmp s name in
    if ltb c d then negsuc 0 else if ltb d c then pos 1 else if c == 0 then pos 0 else rest

-- `cmp == 0 && entity[len] == 0`
unfoldable pub matches : ℤ → Bytes → Bytes → Run Bool
matches (pos zero) s name = load (name ++ 0 ∷ []) (length s) >>= λ x. ok (x == 0)
matches (pos (suc n)) s name = ok false
matches (negsuc n) s name = ok false

-- `cmp <= 0`
unfoldable pub not_positive : ℤ → Bool
not_positive (pos n) = n == 0
not_positive (negsuc n) = true

-- The next index to try, on the left and on the right of `i`.
unfoldable pub left_of : ℕ → ℕ → ℕ
left_of i low = let j = i - (i - low) / 2 in if j == i then j - 1 else j

unfoldable pub right_of : ℕ → ℕ → ℕ
right_of i hi = let j = i + (hi - i) / 2 in if j == i then j + 1 else j

module _ (entities : List Entity) where
  -- `S_lookup`; the range shrinks in each round.
  unfoldable pub lookup : ℕ → ℕ → ℕ → ℕ → Bytes → Run (Option Bytes)
  lookup zero i low hi s = out_of_fuel
  lookup (suc fuel) i low hi s = elim (get_elem? entities i) [
    | none ↦ fault
    | some e ↦
        let cmp = strncmp s e.name in
        let left = lookup fuel (left_of i low) low (i - 1) s in
        let right = lookup fuel (right_of i hi) (i + 1) hi s in
        matches cmp s e.name >>= λ found.
        if found
        then ok (some e.bytes)
        else if not_positive cmp && ltb low i
        then left
        else if not (not_positive cmp) && ltb i hi
        then right
        else ok none
  ]

  -- `S_lookup_entity`, for a table that is not empty
  unfoldable pub lookup_entity : Bytes → Run (Option Bytes)
  lookup_entity s = lookup (length entities + 1) (length entities / 2) 0 (length entities - 1) s

-- `_isdigit` and `_isxdigit` of houdini.h; `strchr` finds the terminator too.
unfoldable pub is_dec : ℕ → Bool
is_dec c = leb b'0' c && leb c b'9'

unfoldable pub is_hex : ℕ → Bool
is_hex c = is_dec c || leb b'A' c && leb c b'F' || leb b'a' c && leb c b'f' || c == 0

-- `if (codepoint >= 0x110000) codepoint = 0x110000;`
unfoldable pub capped : ℕ → ℕ
capped codepoint = if leb 0x110000 codepoint then 0x110000 else codepoint

-- The loops over the digits: the code point, and how many digits there are.
unfoldable pub dec_loop : Bytes → ℕ → ℕ → ℕ × ℕ
dec_loop [] codepoint n = (codepoint, n)
dec_loop (c ∷ cs) codepoint n =
    let rest = dec_loop cs (capped (codepoint * 10 + (c - b'0'))) (n + 1) in
    if is_dec c then rest else (codepoint, n)

unfoldable pub hex_loop : Bytes → ℕ → ℕ → ℕ × ℕ
hex_loop [] codepoint n = (codepoint, n)
hex_loop (c ∷ cs) codepoint n =
    let rest = hex_loop cs (capped (codepoint * 16 + (bit_or c 32 % 39 - 9))) (n + 1) in
    if is_hex c then rest else (codepoint, n)

-- The code point, the number of digits and the offset behind them; `digits` starts at `src[1]`.
unfoldable pub read_digits : Bytes → ℕ × ℕ × ℕ
read_digits [] = (0, 0, 0)
read_digits (d ∷ ds) =
    let dec = dec_loop (d ∷ ds) 0 0 in
    let hex = hex_loop ds 0 0 in
    if is_dec d
    then (dec.0, dec.1, dec.1 + 1)
    else if d == b'x' || d == b'X'
    then (hex.0, hex.1, hex.1 + 2)
    else (0, 0, 0)

-- `i < size && src[i] == c`
unfoldable pub byte_is : Bytes → ℕ → ℕ → Bool
byte_is src i c = elim (get_elem? src i) [ none ↦ false | some d ↦ d == c ]

-- A code point that cannot stand in a text is replaced.
unfoldable pub sanitized : ℕ → ℕ
sanitized codepoint =
    if codepoint == 0 || leb 0xD800 codepoint && ltb codepoint 0xE000 || leb 0x110000 codepoint
    then 0xFFFD
    else codepoint

-- The loop that looks for the end of a name, on the bytes from offset `i` on.
unfoldable pub name_end : Bytes → ℕ → Option ℕ
name_end [] i = none
name_end (c ∷ cs) i =
    let rest = name_end cs (i + 1) in if c == b' ' then none else if c == b';' then some i else rest

module _ ⦃libc : Libc⦄ where
  unfoldable pub numeric_ent : Strbuf → Bytes → Run (ℕ × Strbuf)
  numeric_ent ob src =
      let (codepoint, num_digits, i) = read_digits (drop 1 src) in
      if leb 1 num_digits && leb num_digits 8 && byte_is src i b';'
      then (encode_char (sanitized codepoint) ob >>= λ ob'. ok (i + 1, ob'))
      else ok (0, ob)

  module _ (entities : List Entity) where
    unfoldable pub named_ent : Strbuf → Bytes → Run (ℕ × Strbuf)
    named_ent ob src = elim (name_end (drop 2 (take 32 src)) 2) [
      | none ↦ ok (0, ob)
      | some i ↦ lookup_entity entities (take i src) >>= λ entity. elim entity [
        | none ↦ ok (0, ob)
        | some bytes ↦ puts ob bytes >>= λ ob'. ok (i + 1, ob')
      ]
    ]

    -- `houdini_unescape_ent`: how many bytes are read, and the buffer
    unfoldable pub unescape_ent : Strbuf → Bytes → Run (ℕ × Strbuf)
    unescape_ent ob src =
        if leb 3 (length src) && byte_is src 0 b'#' then numeric_ent ob src else named_ent ob src

    -- The outer loop of `houdini_unescape_html` on the bytes from `src + i` on; `first` says that
    -- `i` is 0. Each round passes over a byte at least.
    unfoldable pub unescape_html_loop : ℕ → Bool → ℕ → Strbuf → Bytes → Run (Bool × Strbuf)
    unescape_html_loop zero first size ob src = out_of_fuel
    unescape_html_loop (suc fuel) first size ob [] = ok (true, ob)
    unescape_html_loop (suc fuel) first size ob (c ∷ cs) =
        let n = run_length (λ d. not (d == b'&')) (c ∷ cs) in
        if ltb 0 n && first && leb size n then ok (false, ob) else do
          ob₁ ← if ltb 0 n && first then grow ob size else ok ob
          ob₂ ← if ltb 0 n then put ob₁ (take n (c ∷ cs)) else ok ob₁
          elim (drop n (c ∷ cs)) [
            | [] ↦ ok (true, ob₂)
            | d ∷ ds ↦ unescape_ent ob₂ ds >>= λ r.
                (if r.0 == 0 then putc r.1 b'&' else ok r.1) >>= λ ob₃.
                unescape_html_loop fuel false size ob₃ (drop r.0 ds)
          ]

    unfoldable pub unescape_html : Strbuf → Bytes → Run (Bool × Strbuf)
    unescape_html ob src = unescape_html_loop (length src + 1) true (length src) ob src

    -- `houdini_unescape_html_f`
    unfoldable pub unescape_html_f : Strbuf → Bytes → Run Strbuf
    unescape_html_f ob src = unescape_html ob src >>= λ r. if r.0 then ok r.1 else put r.1 src
