-- ===== src/Buffer/Cut.antt =====
-- buffer.c: `cmark_strbuf_truncate`, `_drop`, `_rtrim` and `_trim`, which shorten a buffer in place.
use cmark.Prelude.{
  ℕ, zero, suc, ◌+◌, ◌-◌, ◌==◌, ltb, if◌then◌else◌, Bytes, load, slice, copy_in, Run, ok, ◌>>=◌,
}
use cmark.Prelude.Int.{ℤ, pos, negsuc}
use cmark.Ctype.{is_space}
use cmark.Buffer.{Strbuf, end_at}
pub mod Laws
pub mod Trim

unfoldable pub truncate : Strbuf → ℤ → Run Strbuf
unfolding end_at
truncate b (negsuc n) = if ltb 0 b.size then end_at b 0 else ok b
truncate b (pos len) = if ltb len b.size then end_at b len else ok b

-- `if (buf->size) memmove(buf->ptr, buf->ptr + n, buf->size);` with `left` the new size
shift_down : Bytes → ℕ → ℕ → Run Bytes
shift_down p n left = if left == 0 then ok p else do d ← slice p n left; copy_in p 0 d

-- `cmark_strbuf_drop` with `n > 0` cut down to the size
drop_clipped : Strbuf → ℕ → Run Strbuf
unfolding shift_down end_at
drop_clipped b n = do
  let left = b.size - n
  p ← shift_down b.ptr n left
  end_at (record b { ptr = p }) left

unfoldable pub drop : Strbuf → ℤ → Run Strbuf
unfolding drop_clipped
drop b (negsuc n) = ok b
drop b (pos n) = if ltb 0 n then drop_clipped b (if ltb b.size n then b.size else n) else ok b

-- The loop of `cmark_strbuf_rtrim`, from the size down; the result is the new size.
unfoldable pub rtrim_loop : ℕ → Bytes → Run ℕ
rtrim_loop zero p = ok 0
rtrim_loop (suc n) p = do
  c ← load p n
  let rest = rtrim_loop n p
  if is_space c then rest else ok (suc n)

unfoldable pub rtrim : Strbuf → Run Strbuf
unfolding end_at
rtrim b = if b.size == 0 then ok b else do n ← rtrim_loop b.size b.ptr; end_at b n

-- The loop of `cmark_strbuf_trim` with `n` bytes ahead of `i`.
unfoldable pub skip_loop : ℕ → ℕ → Bytes → Run ℕ
skip_loop zero i p = ok i
skip_loop (suc n) i p = do
  c ← load p i
  let rest = skip_loop n (i + 1) p
  if is_space c then rest else ok i

unfoldable pub trim : Strbuf → Run Strbuf
trim b =
    if b.size == 0 then ok b else do i ← skip_loop b.size 0 b.ptr; b' ← drop b (pos i); rtrim b'
