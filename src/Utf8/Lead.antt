-- ===== src/Utf8/Lead.antt =====
-- The lead and continuation bytes of UTF-8 as ranges, and what `utf8proc_charlen` finds.
use cmark.Prelude.{
  ℕ, ◌≤◌, ◌<◌, ◌≡◌, refl, Bool, true, false, ◌&&◌, ◌∷◌, ◌==◌, ==_iff, ltb, leb, if◌then◌else◌,
  all_below, all_below_sound, Bytes, ok, arith,
}
use cmark.Prelude.Int.{pos}
use cmark.Utf8.{utf8class, class_of, is_continuation, charlen, charlen_loop}

abbrev class_range : ℕ → ℕ
class_range c =
    if ltb c 128
    then 1
    else if ltb c 192
    then 0
    else if ltb c 224
    then 2
    else if ltb c 240
    then 3
    else if ltb c 248
    then 4
    else 0

class_table : all_below 256 (λ c. class_of c == class_range c) ≡ true
unfolding all_below class_of utf8class
class_table = refl

-- The class of a byte is decided by four bounds.
pub class_of-range : (c : ℕ) → c < 256 → class_of c ≡ class_range c
class_of-range c h = (==_iff _ _).0 (all_below_sound 256 _ c class_table h)

abbrev Continues : ℕ → Type 0
Continues d = (128 ≤ d) × (d < 192)

abbrev same_bool : Bool → Bool → Bool
same_bool true b = b
same_bool false true = false
same_bool false false = true

continuation_table :
    all_below 256 (λ d. same_bool (is_continuation d) (leb 128 d && ltb d 192)) ≡ true
unfolding all_below is_continuation
continuation_table = refl

same_bool-eq : (a b : Bool) → same_bool a b ≡ true → a ≡ b
same_bool-eq true true h = refl
same_bool-eq true false h = cc
same_bool-eq false true h = h
same_bool-eq false false h = refl

-- The continuation bytes are 0x80 to 0xBF.
pub is_continuation-range : (d : ℕ) → d < 256 → is_continuation d ≡ (leb 128 d && ltb d 192)
is_continuation-range d h = same_bool-eq _ _ (all_below_sound 256 _ d continuation_table h)

pub continues : (d : ℕ) → 128 ≤ d → d < 192 → is_continuation d ≡ true
continues d lo hi = ground (arith, is_continuation-range d)

pub class_one : (c : ℕ) → c < 128 → class_of c ≡ 1
class_one c h = ground (arith, class_of-range c)

pub class_two : (c : ℕ) → 192 ≤ c → c < 224 → class_of c ≡ 2
class_two c lo hi = ground (arith, class_of-range c)

pub class_three : (c : ℕ) → 224 ≤ c → c < 240 → class_of c ≡ 3
class_three c lo hi = ground (arith, class_of-range c)

pub class_four : (c : ℕ) → 240 ≤ c → c < 248 → class_of c ≡ 4
class_four c lo hi = ground (arith, class_of-range c)

pub charlen-one : (c : ℕ) (cs : Bytes) → class_of c ≡ 1 → charlen (c ∷ cs) ≡ ok (pos 1)
unfolding charlen charlen_loop
charlen-one c cs k = ground arith

pub charlen-two :
    (c d : ℕ) (cs : Bytes)
    → class_of c ≡ 2
    → is_continuation d ≡ true
    → charlen (c ∷ d ∷ cs) ≡ ok (pos 2)
unfolding charlen charlen_loop
charlen-two c d cs k hd = ground arith

pub charlen-three :
    (c d e : ℕ) (cs : Bytes)
    → class_of c ≡ 3
    → is_continuation d ≡ true
    → is_continuation e ≡ true
    → charlen (c ∷ d ∷ e ∷ cs) ≡ ok (pos 3)
unfolding charlen charlen_loop
charlen-three c d e cs k hd he = ground arith

pub charlen-four :
    (c d e f : ℕ) (cs : Bytes)
    → class_of c ≡ 4
    → is_continuation d ≡ true
    → is_continuation e ≡ true
    → is_continuation f ≡ true
    → charlen (c ∷ d ∷ e ∷ f ∷ cs) ≡ ok (pos 4)
unfolding charlen charlen_loop
charlen-four c d e f cs k hd he hf = ground arith
