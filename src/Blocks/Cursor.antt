-- ===== src/Blocks/Cursor.antt =====
-- blocks.c: `S_find_first_nonspace` and `S_advance_offset`, with the fields of the parser that they
-- use. The input is the memory of the line, whose text a NUL ends. The offsets, columns and counts are
-- never negative; an addition that would pass the int32_t they are held in is a fault.
use cmark.Prelude.{
  ℕ, zero, suc, ◌+◌, ◌-◌, ◌%◌, Bool, true, false, ◌==◌, ltb, leb, if◌then◌else◌, Bytes, load, Run,
  ok, require, out_of_fuel, ◌>>=◌, ◌>>◌,
}
use cmark.Buffer.{int32_max}
use cmark.Blocks.{is_line_end_char}
pub mod Column
pub mod Step
pub mod Advance

abbrev pub tab_stop : ℕ
tab_stop = 4

pub record Cursor : Type 0 where
  pub offset : ℕ
  pub column : ℕ
  pub partially_consumed_tab : Bool
  pub first_nonspace : ℕ
  pub first_nonspace_column : ℕ
  pub indent : ℕ
  pub blank : Bool

-- An addition of the type `int`.
unfoldable pub add_int : ℕ → ℕ → Run ℕ
add_int a b = require (leb (a + b) int32_max) >> ok (a + b)

-- `TAB_STOP - (parser->column % TAB_STOP)`
unfoldable pub to_tab : ℕ → ℕ
to_tab column = tab_stop - column % tab_stop

-- The loop of `S_find_first_nonspace`: the place and column of the byte that ends it, and the byte.
unfoldable pub nonspace_loop : ℕ → Bytes → ℕ → ℕ → ℕ → Run (ℕ × ℕ × ℕ)
unfolding add_int
nonspace_loop zero m first column chars_to_tab = out_of_fuel
nonspace_loop (suc fuel) m first column chars_to_tab = load m first >>= λ c.
    let left = if chars_to_tab - 1 == 0 then tab_stop else chars_to_tab - 1 in
    let after_space = (do
      i ← add_int first 1
      k ← add_int column 1
      nonspace_loop fuel m i k left) in
    let after_tab = (do
      i ← add_int first 1
      k ← add_int column chars_to_tab
      nonspace_loop fuel m i k tab_stop) in
    if c == 0
    then ok (first, column, c)
    else if c == 32
    then after_space
    else if c == 9
    then after_tab
    else ok (first, column, c)

-- `fuel` bounds the bytes in front of the end of the text.
unfoldable pub find_first_nonspace : ℕ → Bytes → Cursor → Run Cursor
unfolding nonspace_loop to_tab is_line_end_char
find_first_nonspace fuel m p = nonspace_loop fuel m p.offset p.column (to_tab p.column) >>= λ r.
    ok (record p {
      first_nonspace = r.0;
      first_nonspace_column = r.1;
      indent = r.1 - p.column;
      blank = is_line_end_char r.2;
    })

-- A byte is passed, and the column grows by `chars`.
unfoldable pub pass_byte : Cursor → ℕ → Run Cursor
unfolding add_int
pass_byte p chars = do
  column ← add_int p.column chars
  offset ← add_int p.offset 1
  ok (record p { partially_consumed_tab = false; column = column; offset = offset })

-- A round of `S_advance_offset` on the byte `c`: the parser, and the count that is left.
unfoldable pub advance_tab : Cursor → ℕ → Bool → Run (Cursor × ℕ)
unfolding to_tab add_int pass_byte
advance_tab p count true =
    if ltb count (to_tab p.column)
    then (add_int p.column count >>= λ column.
        ok (record p { partially_consumed_tab = true; column = column }, 0))
    else (pass_byte p (to_tab p.column) >>= λ q. ok (q, count - to_tab p.column))
advance_tab p count false = pass_byte p (to_tab p.column) >>= λ q. ok (q, count - 1)

unfoldable pub advance_byte : ℕ → Cursor → ℕ → Bool → Run (Cursor × ℕ)
unfolding advance_tab pass_byte
advance_byte c p count columns =
    if c == 9 then advance_tab p count columns else (pass_byte p 1 >>= λ q. ok (q, count - 1))

unfoldable pub advance_loop : ℕ → Bytes → Cursor → ℕ → Bool → Run Cursor
unfolding advance_byte
advance_loop zero m p count columns = out_of_fuel
advance_loop (suc fuel) m p zero columns = ok p
advance_loop (suc fuel) m p (suc count) columns = load m p.offset >>= λ c.
    let rest = advance_byte c p (suc count) columns >>= λ r. advance_loop fuel m r.0 r.1 columns in
    if c == 0 then ok p else rest

-- `S_advance_offset`; each round takes one off the count at least.
unfoldable pub advance_offset : Bytes → Cursor → ℕ → Bool → Run Cursor
unfolding advance_loop
advance_offset m p count columns = advance_loop (count + 1) m p count columns
