-- ===== src/Buffer/Rewrite.antt =====
-- buffer.c: `cmark_strbuf_normalize_whitespace` and `cmark_strbuf_unescape`, which rewrite the bytes
-- of a buffer in place: `r` reads ahead of the write position `w`.
use cmark.Prelude.{
  ℕ, zero, suc, ◌+◌, ◌-◌, Bool, true, false, ◌&&◌, ◌==◌, ltb, if◌then◌else◌, Bytes, load, store,
  Run, ok, out_of_fuel, ◌>>=◌,
}
use cmark.Prelude.Int.{pos}
use cmark.Ctype.{is_space, is_punct}
use cmark.Buffer.{Strbuf}
use cmark.Buffer.Cut.{truncate}
pub mod Whitespace
pub mod Unescape

-- One round on the byte `c`: the new `w`, `last_char_was_space` and memory.
normalize_step : ℕ → ℕ → Bool → Bytes → Run (ℕ × Bool × Bytes)
normalize_step c w last p =
    if is_space c
    then (if last then ok (w, last, p) else do q ← store p w b' '; ok (w + 1, true, q))
    else (do q ← store p w c; ok (w + 1, false, q))

-- `n` rounds are left; the result is the last `w` and the memory.
normalize_loop : ℕ → ℕ → ℕ → Bool → Bytes → Run (ℕ × Bytes)
normalize_loop zero r w last p = ok (w, p)
normalize_loop (suc n) r w last p = do
  c ← load p r
  (w', last', q) ← normalize_step c w last p
  normalize_loop n (r + 1) w' last' q

unfoldable pub normalize_whitespace : Strbuf → Run Strbuf
unfolding normalize_step normalize_loop
normalize_whitespace s = do
  (w, p) ← normalize_loop s.size 0 0 false s.ptr
  truncate (record s { ptr = p }) (pos w)

-- Whether the byte at `r` is a backslash before a punctuation character. The byte behind is read
-- only if it is a backslash.
escapes_at : Bytes → ℕ → Run Bool
escapes_at p r = do
  c ← load p r
  if c == b'\\' then (do d ← load p (r + 1); ok (is_punct d)) else ok false

-- The loop ends when `r` reaches `size`; it is given `size + 1` rounds.
unescape_loop : ℕ → ℕ → ℕ → ℕ → Bytes → Run (ℕ × Bytes)
unescape_loop zero size r w p = out_of_fuel
unescape_loop (suc fuel) size r w p =
    let round = (do
      skip ← escapes_at p r
      let r' = if skip then r + 1 else r
      c ← load p r'
      q ← store p w c
      unescape_loop fuel size (r' + 1) (w + 1) q) in
    if ltb r size then round else ok (w, p)

unfoldable pub unescape : Strbuf → Run Strbuf
unfolding escapes_at unescape_loop
unescape b = do
  (w, p) ← unescape_loop (b.size + 1) b.size 0 0 b.ptr
  truncate (record b { ptr = p }) (pos w)
