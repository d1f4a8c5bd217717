-- ===== src/Blocks/Cursor/Advance.antt =====
-- `S_advance_offset` keeps the column right, and advances by the number of columns or bytes.
use cmark.Prelude.{
  ℕ, zero, suc, ◌+◌, ◌<◌, ◌≡◌, ◌⊎◌, inl, inr, refl, sym, ap, ◌∙◌, Bool, true, false, ◌==◌, [], ◌∷◌,
  ◌++◌, append_assoc, length, length-append, Bool-cases, Bytes, load, load-append, ok, Returns,
  returns, Returns-mono, Returns-bind, ◌≤◌, arith,
}
use mathlib.Core.Path.{subst}
use cmark.Buffer.{int32_max}
use cmark.Blocks.Cursor.{Cursor, advance_byte, advance_loop, advance_offset}
use cmark.Blocks.Cursor.Column.{
  column_of, next_column, column_of-append, column_of-append_all, length-column_of_le, Stands,
  IsPlaced,
}
use cmark.Blocks.Cursor.Step.{Moved, Inside, Rounds, advance_byte-Rounds}

-- What a round keeps: the place, and the sum of what is done and what is left.
record Round (m : Bytes) (p : Cursor) (n : ℕ) (columns : Bool) (r : Cursor × ℕ) : Type 0 where
  place : IsPlaced m r.0
  less : r.1 < suc n
  by_columns : columns ≡ true → r.0.column + r.1 ≡ p.column + suc n
  by_bytes : columns ≡ false → r.0.offset + r.1 ≡ p.offset + suc n

Moved-Round :
    (m before t rest : Bytes) (c : ℕ) (p : Cursor) (n : ℕ) (columns : Bool) (r : Cursor × ℕ)
    → m ≡ before ++ (c ∷ t ++ 0 ∷ rest)
    → column_of 0 (before ++ c ∷ t) ≤ int32_max
    → p.offset ≡ length before
    → Moved (column_of 0 before) c p (suc n) columns r
    → Round m p n columns r
Moved-Round m before t rest c p n columns r memory narrow offset_eq moved = record {
  place = record {
    before = before ++ c ∷ [];
    text = t;
    rest = rest;
    memory = memory ∙ sym (append_assoc before (c ∷ []) (t ++ 0 ∷ rest));
    narrow = rw (append_assoc before (c ∷ []) t) narrow;
    offset_eq = moved.offset_eq ∙ ap (λ i. i + 1) offset_eq ∙ sym (length-append before (c ∷ []));
    stands = inl (moved.whole, moved.column_eq ∙ sym (column_of-append 0 before c));
  };
  less = moved.less;
  by_columns = moved.by_columns;
  by_bytes = λ h. let a = moved.by_bytes h in let b = moved.offset_eq in omega arith;
}

Inside-Round :
    (m before t rest : Bytes) (p : Cursor) (n : ℕ) (columns : Bool) (r : Cursor × ℕ)
    → m ≡ before ++ (9 ∷ t ++ 0 ∷ rest)
    → column_of 0 (before ++ 9 ∷ t) ≤ int32_max
    → p.offset ≡ length before
    → Inside (column_of 0 before) p (suc n) columns r
    → Round m p n columns r
Inside-Round m before t rest p n columns r memory narrow offset_eq inside = record {
  place = record {
    before = before;
    text = 9 ∷ t;
    rest = rest;
    memory = memory;
    narrow = narrow;
    offset_eq = inside.offset_eq ∙ offset_eq;
    stands = inr (inside.part, (t ++ 0 ∷ rest, refl), inside.behind, inside.before);
  };
  less = let none = inside.none_left in omega arith;
  by_columns = λ h. let none = inside.none_left in let done = inside.by_columns in omega arith;
  by_bytes = λ h. let other = inside.only_columns in cc;
}

-- The columns of a line bound those of its start, and its bytes.
first-narrow :
    (before t : Bytes) (c : ℕ)
    → column_of 0 (before ++ c ∷ t) ≤ int32_max
    → (next_column (column_of 0 before) c ≤ int32_max) × (length before + 1 ≤ int32_max)
first-narrow before t c narrow =
    let k = next_column (column_of 0 before) c in
    let all : column_of 0 (before ++ c ∷ t) ≡ column_of k t =
      unfold column_of in column_of-append_all 0 before (c ∷ t) in
    (
      omega (arith, all, length-column_of_le k t),
      omega (arith, length-column_of_le 0 (before ++ c ∷ t), length-append before (c ∷ t)),
    )

advance_byte-Round :
    (m before t rest : Bytes) (c : ℕ) (p : Cursor) (n : ℕ) (columns : Bool)
    → m ≡ before ++ (c ∷ t ++ 0 ∷ rest)
    → column_of 0 (before ++ c ∷ t) ≤ int32_max
    → p.offset ≡ length before
    → Stands (column_of 0 before) (c ∷ t ++ 0 ∷ rest) p
    → Returns (Round m p n columns) (advance_byte c p (suc n) columns)
advance_byte-Round m before t rest c p n columns memory narrow offset_eq stands =
    let (room, inside) = first-narrow before t c narrow in
    Returns-mono
      (advance_byte-Rounds (column_of 0 before) c (t ++ 0 ∷ rest) p n columns stands room
        (rw offset_eq inside))
      (λ r x. round_of r x)
  where
    round_of :
        (r : Cursor × ℕ) → Rounds (column_of 0 before) c p (suc n) columns r → Round m p n columns r
    round_of r (inl x) = Moved-Round m before t rest c p n columns r memory narrow offset_eq x
    round_of r (inr (tab, x)) =
        Inside-Round m before t rest p n columns r
          (memory ∙ ap (λ d. before ++ (d ∷ t ++ 0 ∷ rest)) tab)
          (subst (λ d. column_of 0 (before ++ d ∷ t) ≤ int32_max) tab narrow) offset_eq x

-- Where the cursor may end: as far as asked, or at a byte that ends the text.
pub record Advanced (m : Bytes) (p : Cursor) (count : ℕ) (columns : Bool) (q : Cursor)
    : Type 0 where
  pub place : IsPlaced m q
  pub by_columns : columns ≡ true → (q.column ≡ p.column + count) ⊎ (load m q.offset ≡ ok 0)
  pub by_bytes : columns ≡ false → (q.offset ≡ p.offset + count) ⊎ (load m q.offset ≡ ok 0)

Round-Advanced :
    (m : Bytes) (p q : Cursor) (n : ℕ) (columns : Bool) (r : Cursor × ℕ)
    → Round m p n columns r
    → Advanced m (r.0) (r.1) columns q
    → Advanced m p (suc n) columns q
Round-Advanced m p q n columns r round later = record {
  place = later.place;
  by_columns =
      λ h. elim (later.by_columns h) [ inl e ↦ inl (e ∙ round.by_columns h) | inr e ↦ inr e ];
  by_bytes = λ h. elim (later.by_bytes h) [ inl e ↦ inl (e ∙ round.by_bytes h) | inr e ↦ inr e ];
}

Advanced-stopped :
    (m : Bytes) (p : Cursor) (count : ℕ) (columns : Bool)
    → IsPlaced m p
    → load m p.offset ≡ ok 0
    → Advanced m p count columns p
Advanced-stopped m p count columns place e = record {
  place = place;
  by_columns = λ h. inr e;
  by_bytes = λ h. inr e;
}

-- One round, given what the rest of the rounds does.
advance_round-Advanced :
    (fuel : ℕ) (m before text rest : Bytes) (p : Cursor) (n : ℕ) (columns : Bool)
    → m ≡ before ++ (text ++ 0 ∷ rest)
    → column_of 0 (before ++ text) ≤ int32_max
    → p.offset ≡ length before
    → Stands (column_of 0 before) (text ++ 0 ∷ rest) p
    → IsPlaced m p
    → ((q : Cursor) (k : ℕ)
        → k < suc n
        → IsPlaced m q
        → Returns (Advanced m q k columns) (advance_loop fuel m q k columns))
    → Returns (Advanced m p (suc n) columns) (advance_loop (suc fuel) m p (suc n) columns)
unfolding advance_loop
advance_round-Advanced fuel m before [] rest p n columns memory narrow offset_eq stands place
      later =
    let found : load m p.offset ≡ ok 0 = rw (memory, offset_eq) (load-append before rest 0) in
    rw found (returns (Advanced-stopped m p (suc n) columns place found))
advance_round-Advanced fuel m before (c ∷ t) rest p n columns memory narrow offset_eq stands place
      later =
    let found : load m p.offset ≡ ok c =
      rw (memory, offset_eq) (load-append before (t ++ 0 ∷ rest) c) in
    let round = advance_byte-Round m before t rest c p n columns memory narrow offset_eq stands in
    elim (Bool-cases (c == 0)) [
      | inl h ↦
          let nul : c ≡ 0 = ground arith in
          rw (found, h) (returns (Advanced-stopped m p (suc n) columns place (found ∙ ap ok nul)))
      | inr h ↦
          rw (found, h)
            (Returns-bind round (λ r kept.
              Returns-mono (later (r.0) (r.1) kept.less kept.place)
                (λ q done. Round-Advanced m p q n columns r kept done)))
    ]

advance_loop-Advanced :
    (fuel : ℕ) (m : Bytes) (p : Cursor) (count : ℕ) (columns : Bool)
    → count < fuel
    → IsPlaced m p
    → Returns (Advanced m p count columns) (advance_loop fuel m p count columns)
unfolding advance_loop
advance_loop-Advanced zero m p count columns enough place = elim enough [ ]
advance_loop-Advanced (suc fuel) m p zero columns enough place = returns (record {
  place = place;
  by_columns = λ h. inl (omega arith);
  by_bytes = λ h. inl (omega arith);
})
advance_loop-Advanced (suc fuel) m p (suc n) columns enough place =
    advance_round-Advanced fuel m place.before place.text place.rest p n columns place.memory
      place.narrow place.offset_eq place.stands place
      (λ q k less. advance_loop-Advanced fuel m q k columns (omega arith))

-- On a line that a NUL ends and whose columns fit an int32_t, with a parser that stands in the
-- line, S_advance_offset returns without an overflow; the column is again that of the place, tabs
-- counted to the next multiple of four, or inside the tab at the place; and it moved by the number
-- of columns or of bytes that was asked, or stopped at a NUL.
pub advance_offset-Advanced :
    (m : Bytes) (p : Cursor) (count : ℕ) (columns : Bool)
    → IsPlaced m p
    → Returns (Advanced m p count columns) (advance_offset m p count columns)
unfolding advance_offset
advance_offset-Advanced m p count columns place =
    advance_loop-Advanced (count + 1) m p count columns (omega arith) place
