-- ===== src/Ctype/Digits.antt =====
-- The digits of the class table of cmark_ctype.c.
use cmark.Prelude.{
  ℕ, zero, suc, ◌≤◌, ◌<◌, ◌≡◌, inl, inr, refl, true, not, ◌&&◌, ◌||◌, leb, ltb, Bool-cases, List,
  [], ◌∷◌, length, get_or, all_below, all_below_sound, arith,
}
use cmark.Ctype.{class_of, ctype_class, is_digit}

get_or-beyond : (xs : List ℕ) (i : ℕ) → length xs ≤ i → get_or xs i 0 ≡ 0
get_or-beyond [] i h = refl
get_or-beyond (x ∷ xs) zero h = elim h [ ]
get_or-beyond (x ∷ xs) (suc i) h = get_or-beyond xs i (omega arith)

table_length : length ctype_class ≡ 256
unfolding ctype_class
table_length = refl

digit_table : all_below 256 (λ c. not (is_digit c) || (leb 48 c && leb c 57)) ≡ true
unfolding all_below is_digit
digit_table = refl

class_of-beyond : (c : ℕ) → 256 ≤ c → class_of c ≡ 0
unfolding class_of
class_of-beyond c h = get_or-beyond ctype_class c (omega (arith, table_length))

not_digit : (c : ℕ) → 256 ≤ c → is_digit c ≡ true → (47 < c) × (c < 58)
unfolding is_digit
not_digit c h d = (ground (arith, class_of-beyond c h), ground (arith, class_of-beyond c h))

pub is_digit-range : (c : ℕ) → is_digit c ≡ true → (47 < c) × (c < 58)
is_digit-range c d = elim (Bool-cases (ltb c 256)) [
  | inl h ↦
      let found =
        all_below_sound 256 (λ c. not (is_digit c) || (leb 48 c && leb c 57)) c digit_table
          (ground arith) in
      (ground (arith, found), ground (arith, found))
  | inr h ↦ not_digit c (ground arith) d
]
