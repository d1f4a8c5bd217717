-- ===== src/Blocks/Markers/Loops.antt =====
-- The loops of `parse_list_marker` on a line with a line feed behind it.
use cmark.Prelude.{
  ℕ, zero, suc, ◌+◌, ◌-◌, ◌*◌, ◌≤◌, ◌<◌, ◌≡◌, ◌⊎◌, inl, inr, refl, true, Bool-cases, leb, [], ◌∷◌,
  ◌++◌, length, Bytes, load, ok, Returns, returns, Returns-mono, arith,
}
use cmark.Buffer.{int32_max}
use cmark.Ctype.{is_digit}
use cmark.Ctype.Digits.{is_digit-range}
use cmark.Blocks.{is_space_or_tab}
use cmark.Blocks.Markers.{skip_blanks, digits_loop}

-- What lies at a place no further than the line feed behind the line.
pub peek :
    (line rest : Bytes) (i : ℕ)
    → i ≤ length line
    → (c : ℕ) × (load (line ++ 10 ∷ rest) i ≡ ok c) × ((i < length line) ⊎ (c ≡ 10))
peek [] rest zero h = (10, refl, inr refl)
peek [] rest (suc i) h = elim h [ ]
peek (x ∷ line) rest zero h = (x, refl, inl (omega arith))
peek (x ∷ line) rest (suc i) h =
    let (c, e, at) = peek line rest i (omega arith) in
    (c, e, elim at [ inl l ↦ inl (omega arith) | inr r ↦ inr r ])

pub skip_blanks-Returns :
    (line rest : Bytes) (fuel i : ℕ)
    → i ≤ length line
    → length line < fuel + i
    → Returns (λ d. Unit {0}) (skip_blanks fuel (line ++ 10 ∷ rest) i)
unfolding skip_blanks is_space_or_tab
skip_blanks-Returns line rest zero i h enough = absurd (omega arith)
skip_blanks-Returns line rest (suc fuel) i h enough =
    let (c, e, at) = peek line rest i h in
    elim at [
      | inl l ↦ elim (Bool-cases (is_space_or_tab c)) [
        | inl blank ↦
            rw (e, blank) (skip_blanks-Returns line rest fuel (i + 1) (omega arith) (omega arith))
        | inr other ↦ rw (e, other) (returns tt)
      ]
      | inr r ↦ rw (e, r) (returns tt)
    ]

-- The least number that more digits behind a number below `b` do not reach.
abbrev pub limit : ℕ → ℕ → ℕ
limit b zero = b
limit b (suc left) = limit (10 * b) left

limit_le : (b left : ℕ) → b ≤ limit b left
limit_le b zero = omega arith
limit_le b (suc left) = omega (arith, limit_le (10 * b) left)

pub record Digits (line : Bytes) (i left b : ℕ) (r : ℕ × ℕ) : Type 0 where
  pub small : r.0 < limit b left
  pub behind : i ≤ r.1
  pub near : r.1 ≤ i + left
  pub inside : r.1 ≤ length line

pub digits_loop-Digits :
    (line rest : Bytes) (left i start b : ℕ)
    → i ≤ length line
    → start < b
    → limit b left ≤ 1000000000
    → Returns (Digits line i left b) (digits_loop left (line ++ 10 ∷ rest) i start)
unfolding digits_loop
digits_loop-Digits line rest zero i start b h less room =
    returns (record { small = less; behind = omega arith; near = omega arith; inside = h })
digits_loop-Digits line rest (suc left) i start b h less room =
    let (c, e, at) = peek line rest i h in
    elim (Bool-cases (is_digit c)) [
      | inl digit ↦
          let (low, high) = is_digit-range c digit in
          let within : i < length line = elim at [ inl l ↦ l | inr r ↦ omega arith ] in
          let fits : leb (10 * start + (c - 48)) int32_max ≡ true =
            ground (arith, limit_le (10 * b) left) in
          rw (e, digit, fits)
            (Returns-mono
              (digits_loop-Digits line rest left (i + 1) (10 * start + (c - 48)) (10 * b)
                (omega arith) (omega arith) room)
              (λ r d. record {
                small = d.small;
                behind = let x = d.behind in omega arith;
                near = let x = d.near in omega arith;
                inside = d.inside;
              }))
      | inr other ↦
          rw (e, other)
            (returns (record {
              small = omega (arith, limit_le b (suc left));
              behind = omega arith;
              near = omega arith;
              inside = h;
            }))
    ]
