-- ===== src/Blocks/Cursor/Step.antt =====
-- blocks.c: one round of the loop of `S_advance_offset`, on one byte.
use cmark.Prelude.{
  ℕ, suc, ◌+◌, ◌-◌, ◌%◌, ◌≤◌, ◌<◌, ◌≡◌, ◌⊎◌, inl, inr, refl, ap, Bool, true, false, ◌==◌, ltb, ◌∷◌,
  Bool-cases, leb, Bytes, ok, Returns, returns, arith,
}
use mathlib.Core.Path.{subst}
use cmark.Buffer.{int32_max}
use cmark.Blocks.Cursor.{add_int, pass_byte, Cursor, to_tab, advance_tab, advance_byte}
use cmark.Blocks.Cursor.Column.{next_column, Stands}

-- A round either passes over the byte, or ends inside a tab.
pub record Moved (k c : ℕ) (p : Cursor) (count : ℕ) (columns : Bool) (r : Cursor × ℕ) : Type 0 where
  pub offset_eq : r.0.offset ≡ p.offset + 1
  pub whole : r.0.partially_consumed_tab ≡ false
  pub column_eq : r.0.column ≡ next_column k c
  pub less : r.1 < count
  pub by_columns : columns ≡ true → r.0.column + r.1 ≡ p.column + count
  pub by_bytes : columns ≡ false → r.1 + 1 ≡ count

pub record Inside (k : ℕ) (p : Cursor) (count : ℕ) (columns : Bool) (r : Cursor × ℕ) : Type 0 where
  pub offset_eq : r.0.offset ≡ p.offset
  pub part : r.0.partially_consumed_tab ≡ true
  pub behind : k < r.0.column
  pub before : r.0.column < k + to_tab k
  pub none_left : r.1 ≡ 0
  pub by_columns : r.0.column ≡ p.column + count
  pub only_columns : columns ≡ true

-- The outcomes of a round.
abbrev pub Rounds : ℕ → ℕ → Cursor → ℕ → Bool → Cursor × ℕ → Type 0
Rounds k c p count columns r = Moved k c p count columns r ⊎ ((c ≡ 9) × Inside k p count columns r)

add_int-eq : (a b : ℕ) → a + b ≤ int32_max → add_int a b ≡ ok (a + b)
unfolding add_int
add_int-eq a b h = let fits : leb (a + b) int32_max ≡ true = ground arith in rw fits refl

passed : Cursor → ℕ → Cursor
passed p chars = record p {
  partially_consumed_tab = false;
  column = p.column + chars;
  offset = p.offset + 1;
}

pass_byte-eq :
    (p : Cursor) (chars : ℕ)
    → p.column + chars ≤ int32_max
    → p.offset + 1 ≤ int32_max
    → pass_byte p chars ≡ ok (passed p chars)
unfolding pass_byte passed
pass_byte-eq p chars h g = rw (add_int-eq p.column chars h, add_int-eq p.offset 1 g) refl

advance_byte-other :
    (k c : ℕ) (p : Cursor) (n : ℕ) (columns : Bool)
    → (c == 9) ≡ false
    → p.column ≡ k
    → next_column k c ≤ int32_max
    → p.offset + 1 ≤ int32_max
    → Returns (Rounds k c p (suc n) columns) (advance_byte c p (suc n) columns)
unfolding advance_byte next_column passed
advance_byte-other k c p n columns h e room inside =
    let wide : k + 1 ≤ int32_max = rw h at room in
    rw (h, pass_byte-eq p 1 (omega arith) inside)
      (returns (
        inl (record {
          offset_eq = refl;
          whole = refl;
          column_eq = rw h (ap (λ i. i + 1) e);
          less = omega arith;
          by_columns = λ x. omega arith;
          by_bytes = λ x. omega arith;
        })))

-- At a tab, from its column or from inside it.
advance_tab-Rounds :
    (k : ℕ) (p : Cursor) (n : ℕ) (columns : Bool)
    → k ≤ p.column
    → p.column < k + to_tab k
    → k + to_tab k ≤ int32_max
    → p.offset + 1 ≤ int32_max
    → Returns (Rounds k 9 p (suc n) columns) (advance_tab p (suc n) columns)
unfolding advance_tab next_column to_tab passed
advance_tab-Rounds k p n true lo hi room inside =
    elim (Bool-cases (ltb (suc n) (4 - p.column % 4))) [
      | inl h ↦
          let short : suc n < 4 - p.column % 4 = ground arith in
          rw (h, add_int-eq p.column (suc n) (omega arith))
            (returns (
              inr (
                refl,
                record {
                  offset_eq = refl;
                  part = refl;
                  behind = omega arith;
                  before = omega arith;
                  none_left = refl;
                  by_columns = refl;
                  only_columns = refl;
                },
              )))
      | inr h ↦
          let long : 4 - p.column % 4 ≤ suc n = ground arith in
          rw (h, pass_byte-eq p (4 - p.column % 4) (omega arith) inside)
            (returns (
              inl (record {
                offset_eq = refl;
                whole = refl;
                column_eq = omega arith;
                less = omega arith;
                by_columns = λ x. omega arith;
                by_bytes = λ x. cc;
              })))
    ]
advance_tab-Rounds k p n false lo hi room inside =
    rw (pass_byte-eq p (4 - p.column % 4) (omega arith) inside) (
      returns (
        inl (record {
          offset_eq = refl;
          whole = refl;
          column_eq = omega arith;
          less = omega arith;
          by_columns = λ x. cc;
          by_bytes = λ x. omega arith;
        })))

to_tab-positive : (k : ℕ) → 0 < to_tab k
unfolding to_tab
to_tab-positive k = omega arith

advance_byte-tab :
    (k : ℕ) (p : Cursor) (n : ℕ) (columns : Bool)
    → k ≤ p.column
    → p.column < k + to_tab k
    → next_column k 9 ≤ int32_max
    → p.offset + 1 ≤ int32_max
    → Returns (Rounds k 9 p (suc n) columns) (advance_byte 9 p (suc n) columns)
unfolding advance_byte next_column
advance_byte-tab k p n columns lo hi room inside =
    advance_tab-Rounds k p n columns lo hi room inside

pub advance_byte-Rounds :
    (k c : ℕ) (r : Bytes) (p : Cursor) (n : ℕ) (columns : Bool)
    → Stands k (c ∷ r) p
    → next_column k c ≤ int32_max
    → p.offset + 1 ≤ int32_max
    → Returns (Rounds k c p (suc n) columns) (advance_byte c p (suc n) columns)
advance_byte-Rounds k c r p n columns (inl (whole, e)) room inside = elim (Bool-cases (c == 9)) [
  | inl h ↦
      let tab : c ≡ 9 = ground arith in
      let pos = to_tab-positive k in
      rw tab (
        advance_byte-tab k p n columns (omega arith) (omega arith)
          (subst (λ d. next_column k d ≤ int32_max) tab room) inside)
  | inr h ↦ advance_byte-other k c p n columns h e room inside
]
advance_byte-Rounds k c r p n columns (inr (part, (s, e), lo, hi)) room inside =
    let tab : c ≡ 9 = cc in
    rw tab (
      advance_byte-tab k p n columns (omega arith) hi
        (subst (λ d. next_column k d ≤ int32_max) tab room) inside)
