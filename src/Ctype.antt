-- ===== src/Ctype.antt =====
-- cmark_ctype.c: the class of a byte, and the tests on it. A `char` is passed as the byte that it
-- is converted to, `(uint8_t)c`.
use cmark.Prelude.{ℕ, Bool, List, [], ◌∷◌, ◌++◌, ◌||◌, ◌==◌, get_or, replicate}
pub mod Digits

-- `cmark_ctype_class`: 1 = space, 2 = punct, 3 = digit, 4 = alpha, 0 = other
abbrev row0 : List ℕ
row0 = 0 ∷ 0 ∷ 0 ∷ 0 ∷ 0 ∷ 0 ∷ 0 ∷ 0 ∷ 0 ∷ 1 ∷ 1 ∷ 0 ∷ 0 ∷ 1 ∷ 0 ∷ 0 ∷ []

abbrev row2 : List ℕ
row2 = 1 ∷ 2 ∷ 2 ∷ 2 ∷ 2 ∷ 2 ∷ 2 ∷ 2 ∷ 2 ∷ 2 ∷ 2 ∷ 2 ∷ 2 ∷ 2 ∷ 2 ∷ 2 ∷ []

abbrev row3 : List ℕ
row3 = 3 ∷ 3 ∷ 3 ∷ 3 ∷ 3 ∷ 3 ∷ 3 ∷ 3 ∷ 3 ∷ 3 ∷ 2 ∷ 2 ∷ 2 ∷ 2 ∷ 2 ∷ 2 ∷ []

abbrev row46 : List ℕ
row46 = 2 ∷ 4 ∷ 4 ∷ 4 ∷ 4 ∷ 4 ∷ 4 ∷ 4 ∷ 4 ∷ 4 ∷ 4 ∷ 4 ∷ 4 ∷ 4 ∷ 4 ∷ 4 ∷ []

abbrev row5 : List ℕ
row5 = 4 ∷ 4 ∷ 4 ∷ 4 ∷ 4 ∷ 4 ∷ 4 ∷ 4 ∷ 4 ∷ 4 ∷ 4 ∷ 2 ∷ 2 ∷ 2 ∷ 2 ∷ 2 ∷ []

abbrev row7 : List ℕ
row7 = 4 ∷ 4 ∷ 4 ∷ 4 ∷ 4 ∷ 4 ∷ 4 ∷ 4 ∷ 4 ∷ 4 ∷ 4 ∷ 2 ∷ 2 ∷ 2 ∷ 2 ∷ 0 ∷ []

ctype_class : List ℕ
ctype_class =
    row0
    ++ (replicate 16 0
        ++ (row2 ++ (row3 ++ (row46 ++ (row5 ++ (row46 ++ (row7 ++ replicate 128 0)))))))

class_of : ℕ → ℕ
unfolding ctype_class
class_of c = get_or ctype_class c 0

unfoldable pub is_space : ℕ → Bool
unfolding class_of
is_space c = class_of c == 1

unfoldable pub is_punct : ℕ → Bool
unfolding class_of
is_punct c = class_of c == 2

unfoldable pub is_alnum : ℕ → Bool
unfolding class_of
is_alnum c = let result = class_of c in result == 3 || result == 4

unfoldable pub is_digit : ℕ → Bool
unfolding class_of
is_digit c = class_of c == 3

unfoldable pub is_alpha : ℕ → Bool
unfolding class_of
is_alpha c = class_of c == 4
