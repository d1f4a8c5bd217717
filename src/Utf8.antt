-- ===== src/Utf8.antt =====
-- utf8.c: decoding, validating and encoding UTF-8. A text `(str, len)` is the list of its bytes;
-- reading behind it is a fault. A code point `int32_t uc` that is not negative is a number.
use cmark.Prelude.{
  ℕ, zero, suc, ◌+◌, ◌-◌, ◌*◌, ◌/◌, ◌^◌, bit_and, low_bits, shr, Bool, true, false, not, ◌&&◌, ◌||◌,
  Option, none, some, List, [], ◌∷◌, ◌++◌, ◌==◌, ltb, leb, if◌then◌else◌, length, take, drop,
  get_or, replicate, Bytes, load, Run, ok, fault, out_of_fuel, ◌>>=◌,
}
use cmark.Prelude.Int.{ℤ, pos, negsuc, neg}
use cmark.Alloc.{Libc}
use cmark.Buffer.{Strbuf, put}
pub mod Lead
pub mod RoundTrip
pub mod Valid
pub mod Classes
pub mod Fold

-- `utf8proc_utf8class`: the length of the sequence that a byte begins, 0 for none
unfoldable pub utf8class : List ℕ
utf8class =
    replicate 128 1
    ++ (replicate 64 0 ++ (replicate 32 2 ++ (replicate 16 3 ++ (replicate 8 4 ++ replicate 8 0))))

unfoldable pub class_of : ℕ → ℕ
class_of c = get_or utf8class c 0

-- `(c & 0xC0) == 0x80`
unfoldable pub is_continuation : ℕ → Bool
is_continuation c = bit_and c 0xC0 == 0x80

abbrev pub replacement : Bytes
replacement = 239 ∷ 191 ∷ 189 ∷ []

-- The loop of `utf8proc_charlen`, with `n` continuation bytes still to test.
unfoldable pub charlen_loop : ℕ → ℕ → ℕ → Bytes → Run ℤ
charlen_loop zero i len str = ok (pos len)
charlen_loop (suc n) i len str = do
  c ← load str i
  let rest = charlen_loop n (i + 1) len str
  if not (is_continuation c) then ok (neg i) else rest

unfoldable pub charlen : Bytes → Run ℤ
charlen [] = ok (pos 0)
charlen (c ∷ cs) =
    let len = class_of c in
    if len == 0
    then ok (negsuc 0)
    else if ltb (length (c ∷ cs)) len
    then ok (neg (length (c ∷ cs)))
    else charlen_loop (len - 1) 1 len (c ∷ cs)

-- The three cases of the switch in `utf8proc_valid`; `c` is `str[0]`.
unfoldable pub valid2 : ℕ → Bytes → Run ℤ
valid2 c str = do
  d ← load str 1
  ok (if not (is_continuation d) then negsuc 0 else if ltb c 0xC2 then neg 2 else pos 2)

unfoldable pub valid3 : ℕ → Bytes → Run ℤ
valid3 c str = do
  d ← load str 1
  if not (is_continuation d) then ok (neg 1) else do
    e ← load str 2
    ok (
        if not (is_continuation e)
        then neg 2
        else if c == 0xE0
        then (if ltb d 0xA0 then neg 3 else pos 3)
        else if c == 0xED
        then (if leb 0xA0 d then neg 3 else pos 3)
        else pos 3)

unfoldable pub valid4 : ℕ → Bytes → Run ℤ
valid4 c str = do
  d ← load str 1
  if not (is_continuation d) then ok (neg 1) else do
    e ← load str 2
    if not (is_continuation e) then ok (neg 2) else do
      f ← load str 3
      ok (
          if not (is_continuation f)
          then neg 3
          else if c == 0xF0
          then (if ltb d 0x90 then neg 4 else pos 4)
          else if leb 0xF4 c
          then (if ltb 0xF4 c || leb 0x90 d then neg 4 else pos 4)
          else pos 4)

unfoldable pub valid_at : ℕ → ℕ → Bytes → Run ℤ
valid_at len c str =
    if len == 2
    then valid2 c str
    else if len == 3
    then valid3 c str
    else if len == 4
    then valid4 c str
    else ok (pos len)

unfoldable pub valid : Bytes → Run ℤ
valid str = do
  c ← load str 0
  let len = class_of c
  if len == 0
      then ok (negsuc 0)
      else if ltb (length str) len
      then ok (neg (length str))
      else valid_at len c str

-- The switch in `cmark_utf8proc_iterate`: the code point of a sequence of `len` bytes that starts
-- with `c`; `none` is -1. A shift to the left is a product.
unfoldable pub decode2 : ℕ → Bytes → Run (Option ℕ)
decode2 c str = do
  d ← load str 1
  let uc = low_bits c 5 * 2 ^ 6 + low_bits d 6
  ok (if ltb uc 0x80 then none else some uc)

unfoldable pub decode3 : ℕ → Bytes → Run (Option ℕ)
decode3 c str = do
  d ← load str 1
  e ← load str 2
  let uc = low_bits c 4 * 2 ^ 12 + low_bits d 6 * 2 ^ 6 + low_bits e 6
  ok (if ltb uc 0x800 || leb 0xD800 uc && ltb uc 0xE000 then none else some uc)

unfoldable pub decode4 : ℕ → Bytes → Run (Option ℕ)
decode4 c str = do
  d ← load str 1
  e ← load str 2
  f ← load str 3
  let uc = low_bits c 3 * 2 ^ 18 + low_bits d 6 * 2 ^ 12 + low_bits e 6 * 2 ^ 6 + low_bits f 6
  ok (if ltb uc 0x10000 || leb 0x110000 uc then none else some uc)

unfoldable pub decode : ℕ → Bytes → Run (Option ℕ)
decode len str = do
  c ← load str 0
  if len == 1
      then ok (some c)
      else if len == 2
      then decode2 c str
      else if len == 3
      then decode3 c str
      else if len == 4
      then decode4 c str
      else ok none

-- The length of the sequence and the code point; `none` is the result -1.
abbrev with_length : ℕ → Option ℕ → Option (ℕ × ℕ)
with_length len none = none
with_length len (some uc) = some (len, uc)

unfoldable pub iterate_at : ℤ → Bytes → Run (Option (ℕ × ℕ))
iterate_at (negsuc n) str = ok none
iterate_at (pos zero) str = ok none
iterate_at (pos (suc n)) str = do uc ← decode (suc n) str; ok (with_length (suc n) uc)

unfoldable pub iterate : Bytes → Run (Option (ℕ × ℕ))
iterate str = do len ← charlen str; iterate_at len str

module _ ⦃libc : Libc⦄ where
  unfoldable pub encode_unknown : Strbuf → Run Strbuf
  encode_unknown b = put b replacement

-- The bytes that `cmark_utf8proc_encode_char` puts for a code point below 0x110000.
unfoldable pub encode : ℕ → Bytes
encode uc =
    if ltb uc 0x80
    then low_bits uc 8 ∷ []
    else if ltb uc 0x800
    then (0xC0 + shr uc 6) ∷ (0x80 + low_bits uc 6) ∷ []
    else if uc == 0xFFFF
    then 0xFF ∷ []
    else if uc == 0xFFFE
    then 0xFE ∷ []
    else if ltb uc 0x10000
    then (0xE0 + shr uc 12) ∷ (0x80 + low_bits (shr uc 6) 6) ∷ (0x80 + low_bits uc 6) ∷ []
    else ((0xF0 + shr uc 18)
        ∷ (0x80 + low_bits (shr uc 12) 6)
        ∷ (0x80 + low_bits (shr uc 6) 6)
        ∷ (0x80 + low_bits uc 6)
        ∷ [])

module _ ⦃libc : Libc⦄ where
  unfoldable pub encode_char : ℕ → Strbuf → Run Strbuf
  encode_char uc b = if ltb uc 0x110000 then put b (encode uc) else encode_unknown b

-- The inner loop of `cmark_utf8proc_check` on the bytes from `line + i` on, `n` bytes behind `org`:
-- the bytes passed over, and `charlen` where it stops. Each round passes over a byte at least.
unfoldable pub scan : ℕ → Bytes → ℕ → Run (ℕ × ℕ)
scan zero str n = out_of_fuel
scan (suc fuel) [] n = ok (n, 0)
scan (suc fuel) (c ∷ cs) n =
    let ascii = scan fuel cs (n + 1) in
    let sequence = (do
      len ← valid (c ∷ cs)
      elim len [ negsuc m ↦ ok (n, m + 1) | pos m ↦ scan fuel (drop m (c ∷ cs)) (n + m) ]) in
    if ltb c 0x80 && not (c == 0) then ascii else if leb 0x80 c then sequence else ok (n, 1)

module _ ⦃libc : Libc⦄ where
  -- The outer loop on the bytes from `line + i` on.
  unfoldable pub check_loop : ℕ → Strbuf → Bytes → Run Strbuf
  check_loop zero ob line = out_of_fuel
  check_loop (suc fuel) ob [] = ok ob
  check_loop (suc fuel) ob (c ∷ cs) = do
    (n, charlen) ← scan (length (c ∷ cs) + 1) (c ∷ cs) 0
    ob' ← if ltb 0 n then put ob (take n (c ∷ cs)) else ok ob
    let rest = drop n (c ∷ cs)
    if length rest == 0
        then ok ob'
        else encode_unknown ob' >>= λ ob''. check_loop fuel ob'' (drop charlen rest)

  unfoldable pub check : Strbuf → Bytes → Run Strbuf
  check ob line = check_loop (length line + 1) ob line
