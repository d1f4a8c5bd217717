-- ===== src/Blocks/Markers.antt =====
-- blocks.c: `parse_list_marker`, on the memory of a line. The list data is allocated and cleared by
-- `calloc`; `list_size` is `sizeof(cmark_list)`, which the platform decides.
use cmark.Prelude.{
  ℕ, zero, suc, ◌+◌, ◌-◌, ◌*◌, leb, Bool, true, false, not, ◌&&◌, ◌||◌, Option, none, some, ◌==◌,
  if◌then◌else◌, length, Bytes, load, Run, ok, require, out_of_fuel, ◌>>=◌, ◌>>◌,
}
use cmark.Prelude.Int.{pos}
use cmark.Alloc.{Libc, xcalloc}
use cmark.Buffer.{int32_max}
use cmark.Ctype.{is_space, is_digit}
use cmark.Node.Content.{ListData, bullet_list, ordered_list, period_delim, paren_delim}
use cmark.Blocks.{is_line_end_char, is_space_or_tab}
pub mod Loops
pub mod Inside

-- The length of the marker and the details, or none for a result of 0.
abbrev pub Marker : Type 0
Marker = Option (ℕ × ListData)

-- `while (S_is_space_or_tab(peek_at(input, i))) i++;`, and the byte that ends it. The fuel is the
-- length of the memory and one.
unfoldable pub skip_blanks : ℕ → Bytes → ℕ → Run ℕ
unfolding is_space_or_tab
skip_blanks zero m i = out_of_fuel
skip_blanks (suc fuel) m i = load m i >>= λ c.
    let rest = skip_blanks fuel m (i + 1) in if is_space_or_tab c then rest else ok c

unfoldable pub bullet_data : ℕ → ListData
bullet_data c = record {
  list_type = bullet_list;
  marker_offset = pos 0;
  padding = pos 0;
  start = pos 1;
  delimiter = period_delim;
  bullet_char = c;
  tight = false;
}

-- The loop over the digits: after `left` more of them it ends in any case. An `int` must not
-- overflow.
unfoldable pub digits_loop : ℕ → Bytes → ℕ → ℕ → Run (ℕ × ℕ)
digits_loop zero m i start = ok (start, i)
digits_loop (suc left) m i start = load m i >>= λ c.
    let next = 10 * start + (c - 48) in
    let rest = require (leb next int32_max) >> digits_loop left m (i + 1) next in
    if is_digit c then rest else ok (start, i)

unfoldable pub ordered_data : ℕ → ℕ → ListData
ordered_data c start = record {
  list_type = ordered_list;
  marker_offset = pos 0;
  padding = pos 0;
  start = pos start;
  delimiter = if c == 46 then period_delim else paren_delim;
  bullet_char = 0;
  tight = false;
}

module _ ⦃libc : Libc⦄ (list_size : ℕ) where
  -- The end of a branch that finds a marker of `n` bytes.
  unfoldable pub found_marker : ℕ → ListData → Run Marker
  found_marker n d = xcalloc list_size >>= λ q. ok (some (n, d))

  unfoldable pub bullet : Bytes → ℕ → Bool → ℕ → Run Marker
  bullet m i interrupts c = load m (i + 1) >>= λ next.
      let found = found_marker 1 (bullet_data c) in
      if not (is_space next)
      then ok none
      else if interrupts
      then (skip_blanks (length m + 1) m (i + 1) >>= λ d. if d == 10 then ok none else found)
      else found

  -- The part behind the digits, which end at `i`.
  unfoldable pub delimiter_at : Bytes → ℕ → Bool → ℕ → ℕ → Run Marker
  delimiter_at m start_pos interrupts start i = load m i >>= λ c.
      if c == 46 || c == 41
      then (load m (i + 1) >>= λ next.
          let found = found_marker (i + 1 - start_pos) (ordered_data c start) in
          if not (is_space next)
          then ok none
          else if interrupts
          then (skip_blanks (length m + 1) m (i + 1) >>= λ d.
              if is_line_end_char d then ok none else found)
          else found)
      else ok none

  -- The first digit is read again by the loop.
  unfoldable pub ordered : Bytes → ℕ → Bool → Run Marker
  ordered m i interrupts = digits_loop 9 m i 0 >>= λ r.
      if interrupts && not (r.0 == 1) then ok none else delimiter_at m i interrupts r.0 r.1

  unfoldable pub parse_list_marker : Bytes → ℕ → Bool → Run Marker
  parse_list_marker m i interrupts = load m i >>= λ c.
      if c == 42 || c == 45 || c == 43
      then bullet m i interrupts c
      else if is_digit c
      then ordered m i interrupts
      else ok none
