-- ===== src/Blocks/Cursor/Column.antt =====
-- The column of a byte in a line, and where a cursor may stand.
use cmark.Prelude.{
  ℕ, ◌+◌, ◌<◌, ◌≤◌, inl, inr, Bool-cases, arith, ◌≡◌, ◌⊎◌, refl, true, false, ◌==◌, [], ◌∷◌, ◌++◌,
  length, if◌then◌else◌, Bytes,
}
use cmark.Buffer.{int32_max}
use cmark.Blocks.Cursor.{Cursor, to_tab}

-- The column behind a byte in the column `k`, and behind a text.
unfoldable pub next_column : ℕ → ℕ → ℕ
unfolding to_tab
next_column k c = if c == 9 then k + to_tab k else k + 1

unfoldable pub column_of : ℕ → Bytes → ℕ
unfolding next_column
column_of k [] = k
column_of k (c ∷ s) = column_of (next_column k c) s

pub column_of-append :
    (k : ℕ) (s : Bytes) (c : ℕ) → column_of k (s ++ c ∷ []) ≡ next_column (column_of k s) c
unfolding column_of
column_of-append k [] c = refl
column_of-append k (d ∷ s) c = column_of-append (next_column k d) s c

pub column_of-append_all :
    (k : ℕ) (s t : Bytes) → column_of k (s ++ t) ≡ column_of (column_of k s) t
unfolding column_of
column_of-append_all k [] t = refl
column_of-append_all k (c ∷ s) t = column_of-append_all (next_column k c) s t

next_column-lt : (k c : ℕ) → k < next_column k c
unfolding next_column to_tab
next_column-lt k c = elim (Bool-cases (c == 9)) [
  | inl h ↦ rw h (omega arith)
  | inr h ↦ rw h (omega arith)
]

-- Every byte takes a column at least.
pub length-column_of_le : (k : ℕ) (s : Bytes) → k + length s ≤ column_of k s
unfolding column_of
length-column_of_le k [] = omega arith
length-column_of_le k (c ∷ s) =
    omega (arith, next_column-lt k c, length-column_of_le (next_column k c) s)

-- The cursor stands at a byte whose column it has; or inside a tab, of which it has passed a part.
abbrev pub Stands : ℕ → Bytes → Cursor → Type 0
Stands k after p =
    ((p.partially_consumed_tab ≡ false) × (p.column ≡ k))
    ⊎ ((p.partially_consumed_tab ≡ true)
        × ((r : Bytes) × (after ≡ 9 ∷ r))
        × (k < p.column)
        × (p.column < k + to_tab k))

-- The text of a line and the cursor in it. The columns of the text fit an int32_t.
pub record IsPlaced (m : Bytes) (p : Cursor) : Type 0 where
  pub before : Bytes
  pub text : Bytes
  pub rest : Bytes
  pub memory : m ≡ before ++ (text ++ 0 ∷ rest)
  pub narrow : column_of 0 (before ++ text) ≤ int32_max
  pub offset_eq : p.offset ≡ length before
  pub stands : Stands (column_of 0 before) (text ++ 0 ∷ rest) p
