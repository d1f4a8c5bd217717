-- ===== src/Buffer.antt =====
-- buffer.c: growing byte buffers. `ptr` is the memory that the pointer leads to: the one static
-- byte `cmark_strbuf__initbuf` while `asize` is 0, else the `asize` bytes of an allocation. The
-- pointer and length pairs `(data, len)` of the C functions are lists of bytes, so `len <= 0` is
-- the empty list; `bufsize_t` is `int32_t`, and a signed argument whose negative values the code
-- tests is an integer.
use cmark.Prelude.{
  ℕ, zero, suc, ◌+◌, ◌-◌, ◌/◌, ◌%◌, low_bits, Option, none, some, List, [], ◌∷◌, ◌==◌, ltb, leb,
  if◌then◌else◌, length, Bytes, store, copy_in, Run, ok, aborted, too_large, require, ◌>>=◌, ◌>>◌,
}
use cmark.Alloc.{Libc, xcalloc, xrealloc}
pub mod Cut
pub mod Rewrite
pub mod Search
pub mod Layout

abbrev pub int32_max : ℕ
int32_max = 2147483647

-- `INT32_MAX / 2`
abbrev pub half_max : ℕ
half_max = 1073741823

pub record Strbuf : Type 0 where
  pub ptr : Bytes
  pub asize : ℕ
  pub size : ℕ

abbrev pub initbuf : Bytes
initbuf = 0 ∷ []

abbrev pub empty : Strbuf
empty = record { ptr = initbuf; asize = 0; size = 0 }

-- `new_size` in `cmark_strbuf_grow`; clearing the low three bits is `& ~7`.
unfoldable pub round_up : ℕ → ℕ
round_up target = let n = target + target / 2 + 1 in n + 7 - (n + 7) % 8

module _ ⦃libc : Libc⦄ where
  unfoldable pub grow : Strbuf → ℕ → Run Strbuf
  grow b target = do
    require (ltb 0 target)
    if ltb target b.asize then ok b else if ltb half_max target then aborted too_large else do
      p ← xrealloc (if b.asize == 0 then [] else b.ptr) (round_up target)
      ok (record b { ptr = p; asize = round_up target })

  -- `buf->size + add` must not overflow.
  unfoldable pub grow_by : Strbuf → ℕ → Run Strbuf
  grow_by b add = do require (leb (b.size + add) int32_max); grow b (b.size + add)

  unfoldable pub init : ℕ → Run Strbuf
  init initial_size = if ltb 0 initial_size then grow empty initial_size else ok empty

  unfoldable pub free : Strbuf → Run Strbuf
  free b = init 0

  -- The terminator is written only into memory of the buffer's own.
  unfoldable pub clear : Strbuf → Run Strbuf
  clear b =
      if ltb 0 b.asize
      then (do p ← store b.ptr 0 0; ok (record b { size = 0; ptr = p }))
      else ok (record b { size = 0 })

  unfoldable pub put : Strbuf → Bytes → Run Strbuf
  put b [] = ok b
  put b (c ∷ cs) = do
    b' ← grow_by b (length (c ∷ cs))
    p ← copy_in b'.ptr b'.size (c ∷ cs)
    let n = b'.size + length (c ∷ cs)
    q ← store p n 0
    ok (record b' { ptr = q; size = n })

  -- A C string is the list of its bytes before the terminator.
  unfoldable pub puts : Strbuf → Bytes → Run Strbuf
  puts b string = put b string

  -- No call passes a negative number: the argument is a byte or a character of ASCII.
  unfoldable pub putc : Strbuf → ℕ → Run Strbuf
  putc b c = do
    b' ← grow_by b 1
    p ← store b'.ptr b'.size (low_bits c 8)
    q ← store p (b'.size + 1) 0
    ok (record b' { ptr = q; size = b'.size + 1 })

-- What `data` may point to in a call of `cmark_strbuf_set`: nothing, the first `len` bytes of the
-- buffer itself, or `len` bytes elsewhere.
pub data Source : Type 0 where
  null : Source
  self : ℕ → Source
  other : Bytes → Source

-- `buf->size = len; buf->ptr[buf->size] = '\0';`
unfoldable pub end_at : Strbuf → ℕ → Run Strbuf
end_at b len = do p ← store b.ptr len 0; ok (record b { ptr = p; size = len })

module _ ⦃libc : Libc⦄ where
  unfoldable pub set : Strbuf → Source → Run Strbuf
  unfolding end_at
  set b null = clear b
  set b (self zero) = clear b
  set b (self (suc n)) = end_at b (suc n)
  set b (other []) = clear b
  set b (other (c ∷ cs)) = do
    b' ← if leb b.asize (length (c ∷ cs)) then grow b (length (c ∷ cs)) else ok b
    p ← copy_in b'.ptr 0 (c ∷ cs)
    end_at (record b' { ptr = p }) (length (c ∷ cs))

  -- `string` is null or a C string.
  unfoldable pub sets : Strbuf → Option Bytes → Run Strbuf
  sets b none = set b null
  sets b (some string) = set b (other string)

  -- The memory handed over, and the buffer left.
  unfoldable pub detach : Strbuf → Run (Bytes × Strbuf)
  detach b =
      if b.asize == 0 then (do p ← xcalloc 1; ok (p, b)) else (do b' ← init 0; ok (b.ptr, b'))

unfoldable pub swap : Strbuf × Strbuf → Strbuf × Strbuf
swap (a, b) = let t = a in (b, t)
