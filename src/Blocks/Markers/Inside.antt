-- ===== src/Blocks/Markers/Inside.antt =====
-- `parse_list_marker` stays inside the line, and its number fits an int.
use cmark.Prelude.{
  ℕ, ◌+◌, ◌-◌, ◌≤◌, ◌<◌, ◌≡◌, inl, inr, refl, Bool, true, false, not, ◌&&◌, ◌||◌, none, some, ◌==◌,
  if◌then◌else◌, Bool-cases, Option-cases, ◌∷◌, ◌++◌, length, length-append, Bytes, ok, Returns,
  arith,
}
use cmark.Prelude.Int.{pos}
use cmark.Alloc.{Libc, xcalloc}
use cmark.Buffer.Layout.{Ends, done, no_memory, bind_Returns}
use cmark.Ctype.{is_space, is_digit}
use cmark.Node.Content.{ListData}
use cmark.Blocks.{is_line_end_char}
use cmark.Blocks.Markers.{
  found_marker, Marker, skip_blanks, bullet_data, bullet, ordered_data, delimiter_at, ordered,
  parse_list_marker,
}
use cmark.Blocks.Markers.Loops.{peek, skip_blanks-Returns, digits_loop-Digits}

-- A marker of at most ten bytes in the line, whose number is below 10 ^ 9.
pub record IsMarker (line : Bytes) (i n : ℕ) (d : ListData) : Type 0 where
  pub some_bytes : 0 < n
  pub short : n ≤ 10
  pub inside : i + n ≤ length line
  pub number : (k : ℕ) × (d.start ≡ pos k) × (k < 1000000000)

abbrev pub MarkerInside : Bytes → ℕ → Marker → Type 0
MarkerInside line i none = Unit {0}
MarkerInside line i (some (n, d)) = IsMarker line i n d

blanks :
    (line rest : Bytes) (i : ℕ)
    → i ≤ length line
    → Returns (λ d. Unit {0}) (skip_blanks (length (line ++ 10 ∷ rest) + 1) (line ++ 10 ∷ rest) i)
blanks line rest i h =
    skip_blanks-Returns line rest (length (line ++ 10 ∷ rest) + 1) i h
      (omega (arith, length-append line (10 ∷ rest)))

module _ ⦃libc : Libc⦄ (list_size : ℕ) where
  found_marker-MarkerInside :
      (line : Bytes) (i n : ℕ) (d : ListData)
      → IsMarker line i n d
      → Ends 0 (MarkerInside line i) (found_marker list_size n d)
  unfolding found_marker xcalloc
  found_marker-MarkerInside line i n d h = elim (Option-cases (libc.calloc list_size)) [
    | inl failed ↦ rw (xcalloc, failed) no_memory
    | inr (q, given) ↦ rw (xcalloc, given) (done h)
  ]

  -- The test for a blank line behind the marker, with any outcome.
  tested :
      (line : Bytes) (i n : ℕ) (d : ListData) (b : Bool)
      → IsMarker line i n d
      → Ends 0 (MarkerInside line i) (if b then ok none else found_marker list_size n d)
  tested line i n d true h = done tt
  tested line i n d false h = found_marker-MarkerInside line i n d h

  bullet-MarkerInside :
      (line rest : Bytes) (i c : ℕ) (interrupts : Bool)
      → i < length line
      → Ends 0 (MarkerInside line i) (bullet list_size (line ++ 10 ∷ rest) i interrupts c)
  unfolding bullet
  bullet-MarkerInside line rest i c interrupts h =
      let (next, e, at) = peek line rest (i + 1) (omega arith) in
      let found : IsMarker line i 1 (bullet_data c) = record {
        some_bytes = omega arith;
        short = omega arith;
        inside = omega arith;
        number = (1, unfold bullet_data in refl, omega arith);
      } in
      elim (Bool-cases (is_space next)) [
        | inr other ↦ rw (e, other) (done tt)
        | inl space ↦ elim (Bool-cases interrupts) [
          | inl on ↦
              rw (e, space, on)
                (bind_Returns (blanks line rest (i + 1) (omega arith))
                  (λ d u. tested line i 1 (bullet_data c) (d == 10) found))
          | inr off ↦ rw (e, space, off) (found_marker-MarkerInside line i 1 (bullet_data c) found)
        ]
      ]

  delimiter_at-MarkerInside :
      (line rest : Bytes) (i : ℕ) (interrupts : Bool) (start j : ℕ)
      → i ≤ j
      → j ≤ i + 9
      → j ≤ length line
      → start < 1000000000
      → Ends 0
          (MarkerInside line i)
          (delimiter_at list_size (line ++ 10 ∷ rest) i interrupts start j)
  unfolding delimiter_at
  delimiter_at-MarkerInside line rest i interrupts start j lo hi inside small =
      let (c, e, at) = peek line rest j inside in
      elim (Bool-cases (c == 46 || c == 41)) [
        | inr other ↦ rw (e, other) (done tt)
        | inl mark ↦
            let within : j < length line = elim at [ inl l ↦ l | inr r ↦ absurd (ground arith) ] in
            let (next, e', at') = peek line rest (j + 1) (omega arith) in
            let n = j + 1 - i in
            let d = ordered_data c start in
            let found : IsMarker line i n d = record {
              some_bytes = omega arith;
              short = omega arith;
              inside = omega arith;
              number = (start, unfold ordered_data in refl, small);
            } in
            elim (Bool-cases (is_space next)) [
              | inr other ↦ rw (e, mark, e', other) (done tt)
              | inl space ↦ elim (Bool-cases interrupts) [
                | inl on ↦
                    rw (e, mark, e', space, on)
                      (bind_Returns (blanks line rest (j + 1) (omega arith))
                        (λ x u. tested line i n d (is_line_end_char x) found))
                | inr off ↦
                    rw (e, mark, e', space, off) (found_marker-MarkerInside line i n d found)
              ]
            ]
      ]

  ordered-MarkerInside :
      (line rest : Bytes) (i : ℕ) (interrupts : Bool)
      → i ≤ length line
      → Ends 0 (MarkerInside line i) (ordered list_size (line ++ 10 ∷ rest) i interrupts)
  unfolding ordered
  ordered-MarkerInside line rest i interrupts h =
      bind_Returns (digits_loop-Digits line rest 9 i 0 1 h (omega arith) (omega arith)) (λ r d.
        elim (Bool-cases (interrupts && not (r.0 == 1))) [
          | inl late ↦ rw late (done tt)
          | inr go ↦ rw go (
              delimiter_at-MarkerInside line rest i interrupts (r.0) (r.1) d.behind d.near d.inside
                d.small)
        ])

  -- On a line with a line feed behind it, and at a place in it or at the line feed,
  -- parse_list_marker returns, or aborts for want of memory. A marker that it finds has between one
  -- and ten bytes, ends in the line, and has a start below 10 ^ 9; the int that the start is
  -- computed in does not overflow.
  pub parse_list_marker-MarkerInside :
      (line rest : Bytes) (i : ℕ) (interrupts : Bool)
      → i ≤ length line
      → Ends 0 (MarkerInside line i) (parse_list_marker list_size (line ++ 10 ∷ rest) i interrupts)
  unfolding parse_list_marker
  parse_list_marker-MarkerInside line rest i interrupts h =
      let (c, e, at) = peek line rest i h in
      elim (Bool-cases (c == 42 || c == 45 || c == 43)) [
        | inl mark ↦
            let within : i < length line = elim at [ inl l ↦ l | inr r ↦ absurd (ground arith) ] in
            rw (e, mark) (bullet-MarkerInside line rest i c interrupts within)
        | inr other ↦ elim (Bool-cases (is_digit c)) [
          | inl digit ↦ rw (e, other, digit) (ordered-MarkerInside line rest i interrupts h)
          | inr none_here ↦ rw (e, other, none_here) (done tt)
        ]
      ]
