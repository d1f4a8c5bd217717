-- ===== src/Blocks/Trailing.antt =====
-- blocks.c: `remove_trailing_blank_lines`, which finalizing an indented code block calls on its text.
use cmark.Prelude.{
  ℕ, zero, suc, ◌+◌, ◌-◌, Bool, ◌||◌, Option, none, some, ◌==◌, if◌then◌else◌, Bytes, load, Run, ok,
  ◌>>=◌,
}
use cmark.Prelude.Int.{pos}
use cmark.Alloc.{Libc}
use cmark.Buffer.{Strbuf, clear}
use cmark.Buffer.Cut.{truncate}
use cmark.Blocks.{is_line_end_char, is_space_or_tab}
pub mod Lines

unfoldable pub is_blank : ℕ → Bool
unfolding is_space_or_tab is_line_end_char
is_blank c = is_space_or_tab c || is_line_end_char c

-- The first loop, from `n - 1` down: the number of bytes up to the last that is not blank.
unfoldable pub last_text : ℕ → Bytes → Run ℕ
last_text zero m = ok zero
last_text (suc n) m =
    load m n >>= λ c. let rest = last_text n m in if is_blank c then rest else ok (suc n)

-- The second loop, on `left` bytes from `i` on: where the first line end stands.
unfoldable pub first_end : ℕ → Bytes → ℕ → Run (Option ℕ)
first_end zero m i = ok none
first_end (suc left) m i = load m i >>= λ c.
    let rest = first_end left m (i + 1) in if is_line_end_char c then ok (some i) else rest

unfoldable pub cut_at : Strbuf → Option ℕ → Run Strbuf
cut_at ln none = ok ln
cut_at ln (some i) = truncate ln (pos i)

unfoldable pub remove_trailing_blank_lines : ⦃libc : Libc⦄ → Strbuf → Run Strbuf
remove_trailing_blank_lines ln = last_text ln.size ln.ptr >>= λ n.
    if n == 0 then clear ln else (first_end (ln.size - (n - 1)) ln.ptr (n - 1) >>= λ o. cut_at ln o)
