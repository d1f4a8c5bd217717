-- ===== src/Buffer/Search.antt =====
-- buffer.c: `cmark_strbuf_strchr`, `_strrchr`, `_cmp` and `_copy_cstr`, which read a buffer.
-- `memchr` and `memcmp` are those of the C standard; of the result of `memcmp` only the sign is
-- specified, and the model takes -1 and 1.
use cmark.Prelude.{
  ℕ, zero, suc, ◌+◌, ◌-◌, low_bits, Bool, true, false, ◌||◌, Option, none, some, [], ◌∷◌, ◌==◌, ltb,
  leb, if◌then◌else◌, min, Bytes, load, store, slice, copy_in, Run, ok, ◌>>=◌,
}
use cmark.Prelude.Int.{ℤ, pos, negsuc}
use cmark.Buffer.{Strbuf}

-- -1, the code's "not found"
abbrev pub not_found : ℤ
not_found = negsuc 0

-- the offset of the first byte `c` of a region, counted from `i` on
unfoldable pub memchr : Bytes → ℕ → ℕ → ℤ
memchr [] c i = not_found
memchr (x ∷ xs) c i = if x == c then pos i else memchr xs c (i + 1)

-- the search with `pos` brought into range
strchr_from : Strbuf → ℕ → ℕ → Run ℤ
strchr_from b c p = do d ← slice b.ptr p (b.size - p); ok (memchr d (low_bits c 8) p)

unfoldable pub strchr : Strbuf → ℕ → ℤ → Run ℤ
unfolding strchr_from
strchr b c (pos p) = if leb b.size p then ok not_found else strchr_from b c p
strchr b c (negsuc n) = strchr_from b c 0

-- `for (i = pos; i >= 0; i--)`, with `n` the rounds left, so that `i` is `n - 1`
unfoldable pub strrchr_loop : ℕ → Bytes → ℕ → Run ℤ
strrchr_loop zero p c = ok not_found
strrchr_loop (suc i) p c = do
  x ← load p i
  let rest = strrchr_loop i p c
  if x == low_bits c 8 then ok (pos i) else rest

unfoldable pub strrchr : Strbuf → ℕ → ℤ → Run ℤ
strrchr b c (negsuc n) = ok not_found
strrchr b c (pos p) =
    if b.size == 0
    then ok not_found
    else strrchr_loop (suc (if leb b.size p then b.size - 1 else p)) b.ptr c

-- `memcmp` on two regions of the same length
unfoldable pub memcmp : Bytes → Bytes → ℤ
memcmp [] ys = pos 0
memcmp (x ∷ xs) [] = pos 0
memcmp (x ∷ xs) (y ∷ ys) = if ltb x y then negsuc 0 else if ltb y x then pos 1 else memcmp xs ys

is_zero : ℤ → Bool
is_zero (pos zero) = true
is_zero (pos (suc n)) = false
is_zero (negsuc n) = false

unfoldable pub cmp : Strbuf → Strbuf → Run ℤ
unfolding is_zero
cmp a b = do
  x ← slice a.ptr 0 (min a.size b.size)
  y ← slice b.ptr 0 (min a.size b.size)
  let result = memcmp x y
  ok (
      if is_zero result
      then (if ltb a.size b.size then negsuc 0 else if ltb b.size a.size then pos 1 else pos 0)
      else result)

-- `data` is null or memory of at least `datasize` bytes; the result is that memory.
unfoldable pub copy_cstr : Option Bytes → ℕ → Strbuf → Run (Option Bytes)
copy_cstr none datasize b = ok none
copy_cstr (some m) datasize b = if datasize == 0 then ok (some m) else do
  m₁ ← store m 0 0
  if b.size == 0 || b.asize == 0 then ok (some m₁) else do
    let copylen = if ltb (datasize - 1) b.size then datasize - 1 else b.size
    d ← slice b.ptr 0 copylen
    m₂ ← copy_in m₁ 0 d
    m₃ ← store m₂ copylen 0
    ok (some m₃)
