-- ===== src/Chunk.antt =====
-- chunk.h: slices of text. `bytes` is the memory from the pointer `data` on, or nothing for the null pointer;
-- `alloc` says that the chunk owns that memory, and then a terminator stands behind the text.
use cmark.Prelude.{
  ℕ, zero, suc, ◌+◌, ◌-◌, Bool, true, false, not, Option, none, some, [], ◌∷◌, ◌++◌, ◌==◌, ltb,
  if◌then◌else◌, length, drop, Bytes, low_bits, load, store, slice, copy_in, Run, ok, fault,
  require, ◌>>=◌, ◌>>◌,
}
use cmark.Ctype.{is_space}
use cmark.Alloc.{Libc, xcalloc}
use cmark.Buffer.{Strbuf, detach, int32_max}
use cmark.Buffer.Search.{memchr}
use cmark.Prelude.Int.{ℤ, pos, negsuc}

pub record Chunk : Type 0 where
  pub bytes : Option Bytes
  pub len : ℕ
  pub alloc : Bool

-- `CMARK_CHUNK_EMPTY`, which is also the chunk of cleared memory
abbrev pub empty_chunk : Chunk
empty_chunk = record { bytes = none; len = 0; alloc = false }

-- The memory that is read or written through `data`.
unfoldable pub memory_of : Option Bytes → Run Bytes
memory_of none = fault
memory_of (some m) = ok m

-- `cmark_chunk_free`
unfoldable pub free_chunk : Chunk → Chunk
free_chunk c = empty_chunk

-- The loop of `cmark_chunk_ltrim`: the memory and the length that are left.
unfoldable pub ltrim_loop : ℕ → Bytes → Run (ℕ × Bytes)
ltrim_loop zero m = ok (zero, m)
ltrim_loop (suc n) m = do
  x ← load m 0
  let rest = ltrim_loop n (drop 1 m)
  if is_space x then rest else ok (suc n, m)

unfoldable pub ltrim : Chunk → Run Chunk
ltrim c =
    require (not c.alloc)
    >> (if c.len == 0
        then ok c
        else (memory_of c.bytes >>= λ m.
            ltrim_loop c.len m >>= λ r. ok (record c { bytes = some r.1; len = r.0 })))

unfoldable pub chunk_rtrim_loop : ℕ → Bytes → Run ℕ
chunk_rtrim_loop zero m = ok zero
chunk_rtrim_loop (suc n) m = do
  x ← load m n
  let rest = chunk_rtrim_loop n m
  if is_space x then rest else ok (suc n)

unfoldable pub chunk_rtrim : Chunk → Run Chunk
chunk_rtrim c =
    if c.len == 0
    then ok c
    else (memory_of c.bytes >>= λ m. chunk_rtrim_loop c.len m >>= λ n. ok (record c { len = n }))

unfoldable pub chunk_trim : Chunk → Run Chunk
chunk_trim c = ltrim c >>= chunk_rtrim

-- `cmark_chunk_strchr`: the offset, or the length if there is none
unfoldable pub found_or : ℕ → ℤ → ℕ
found_or len (pos n) = n
found_or len (negsuc n) = len

unfoldable pub chunk_strchr : Chunk → ℕ → ℕ → Run ℕ
chunk_strchr ch c offset = do
  m ← memory_of ch.bytes
  d ← slice m offset (ch.len - offset)
  ok (found_or ch.len (memchr d (low_bits c 8) offset))

module _ ⦃libc : Libc⦄ where
  -- `cmark_chunk_to_cstr`: the C string with its terminator, and the chunk, which then owns it
  unfoldable pub to_cstr : Chunk → Run (Option Bytes × Chunk)
  to_cstr c = if c.alloc then ok (c.bytes, c) else do
    str ← xcalloc (c.len + 1)
    filled ←
        if c.len == 0
        then ok str
        else (do m ← memory_of c.bytes; d ← slice m 0 c.len; copy_in str 0 d)
    q ← store filled c.len 0
    ok (some q, record c { bytes = some q; alloc = true })

  -- `cmark_chunk_set_cstr`; the text, of a C string or null, must be shorter than `bufsize_t` counts
  unfoldable pub set_cstr : Chunk → Option Bytes → Run Chunk
  set_cstr c none = ok empty_chunk
  set_cstr c (some str) = do
    require (ltb (length str) int32_max)
    m ← xcalloc (length str + 1)
    q ← copy_in m 0 (str ++ 0 ∷ [])
    ok (record { bytes = some q; len = length str; alloc = true })

  -- `cmark_chunk_buf_detach`
  unfoldable pub buf_detach : Strbuf → Run (Chunk × Strbuf)
  buf_detach buf =
      detach buf >>= λ r. ok (record { bytes = some r.0; len = buf.size; alloc = true }, r.1)

-- `cmark_chunk_literal`, of a C string or null; the memory has its terminator
unfoldable pub chunk_literal : Option Bytes → Chunk
chunk_literal none = empty_chunk
chunk_literal (some str) = record { bytes = some (str ++ 0 ∷ []); len = length str; alloc = false }

-- `cmark_chunk_dup`
unfoldable pub chunk_dup : Chunk → ℕ → ℕ → Run Chunk
chunk_dup ch p len =
    memory_of ch.bytes >>= λ m. ok (record { bytes = some (drop p m); len = len; alloc = false })
