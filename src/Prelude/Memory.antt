-- ===== src/Prelude/Memory.antt =====
-- Memory as lists of bytes, and facts about bytes that are checked for all 256 values.
use Prim.Native.Nat.{ℕ, zero, suc, ◌+◌, ◌/◌, ◌%◌, ◌^◌, ◌<◌, ◌≤◌}
use native.Mathlib.Nat.{zero-add}
use mathlib.Core.Path.{◌≡◌, refl, ap}
use mathlib.Core.Bool.{Bool, true, false}
use mathlib.Core.List.{List, [], ◌∷◌, ◌++◌}
use mathlib.Core.Option.{none, some}
use native.Mathlib.Omega.{arith}
use cmark.Prelude.Tests.{ltb, leb, if◌then◌else◌}
use cmark.Prelude.Lists.{length, get_elem?, set, take, drop, length-append}
use cmark.Prelude.Outcome.{Run, ok, fault}

abbrev pub Bytes : Type 0
Bytes = List ℕ

-- `x & (2^k - 1)` and `x >> k`
abbrev pub low_bits : ℕ → ℕ → ℕ
low_bits x k = x % 2 ^ k

abbrev pub shr : ℕ → ℕ → ℕ
shr x k = x / 2 ^ k

-- `p[i]`
abbrev pub load : Bytes → ℕ → Run ℕ
load p i = elim (get_elem? p i) [ none ↦ fault | some c ↦ ok c ]

-- `p[i] = c`
abbrev pub store : Bytes → ℕ → ℕ → Run Bytes
store p i c = if ltb i (length p) then ok (set p i c) else fault

-- the memory after `n` bytes are written from offset `i` on
abbrev pub splice : Bytes → ℕ → Bytes → Bytes
splice p i d = take i p ++ (d ++ drop (i + length d) p)

-- `memmove(p + i, d, n)` for `n` bytes `d`
abbrev pub copy_in : Bytes → ℕ → Bytes → Run Bytes
copy_in p i d = if leb (i + length d) (length p) then ok (splice p i d) else fault

-- the `n` bytes at offset `i`
abbrev pub slice : Bytes → ℕ → ℕ → Run Bytes
slice p i n = if leb (i + n) (length p) then ok (take n (drop i p)) else fault

-- A test that passes for the bytes below a bound, by running it on each of them.
unfoldable pub all_below : ℕ → (ℕ → Bool) → Bool
all_below zero test = true
all_below (suc last) test = let below = all_below last test in if test last then below else false

pub all_below_sound :
    (bound : ℕ) (test : ℕ → Bool) (c : ℕ) → all_below bound test ≡ true → c < bound → test c ≡ true
unfolding all_below
all_below_sound zero test c passed inside = absurd (omega arith)
all_below_sound (suc last) test c passed inside = ground (arith, all_below_sound last test c)

pub get_elem?-append : (s r : Bytes) (c : ℕ) → get_elem? (s ++ c ∷ r) (length s) ≡ some c
get_elem?-append [] r c = refl
get_elem?-append (x ∷ s) r c = get_elem?-append s r c

pub set-append : (s r : Bytes) (c d : ℕ) → set (s ++ c ∷ r) (length s) d ≡ s ++ d ∷ r
set-append [] r c d = refl
set-append (x ∷ s) r c d = ap (λ t. x ∷ t) (set-append s r c d)

pub take-append : (s r : Bytes) → take (length s) (s ++ r) ≡ s
take-append [] r = refl
take-append (x ∷ s) r = ap (λ t. x ∷ t) (take-append s r)

pub drop-append : (s r : Bytes) → drop (length s) (s ++ r) ≡ r
drop-append [] r = refl
drop-append (x ∷ s) r = drop-append s r

pub drop-append_add : (n : ℕ) (s r : Bytes) → drop (length s + n) (s ++ r) ≡ drop n r
drop-append_add n [] r = rw zero-add
drop-append_add n (x ∷ s) r =
    let e : suc (length s) + n ≡ suc (length s + n) = omega arith in rw e (drop-append_add n s r)

-- What lies behind a string is reached with the string left alone.
pub splice-append : (s r d : Bytes) → splice (s ++ r) (length s) d ≡ s ++ (d ++ drop (length d) r)
splice-append s r d = rw (take-append s r, drop-append_add (length d) s r)

pub copy_in-append :
    (s r d : Bytes)
    → length d ≤ length r
    → copy_in (s ++ r) (length s) d ≡ ok (s ++ (d ++ drop (length d) r))
copy_in-append s r d h =
    let fits : leb (length s + length d) (length (s ++ r)) ≡ true =
      ground (arith, length-append s r) in
    rw fits (ap (λ t. ok t) (splice-append s r d))

pub store-append : (s r : Bytes) (c d : ℕ) → store (s ++ c ∷ r) (length s) d ≡ ok (s ++ d ∷ r)
store-append s r c d =
    let fits : ltb (length s) (length (s ++ c ∷ r)) ≡ true =
      ground (arith, length-append s (c ∷ r)) in
    rw fits (ap (λ t. ok t) (set-append s r c d))

pub load-append : (s r : Bytes) (c : ℕ) → load (s ++ c ∷ r) (length s) ≡ ok c
load-append s r c = rw (get_elem?-append s r c, load)

pub drop-cons : (n : ℕ) (r : Bytes) → n < length r → (c : ℕ) × (t : Bytes) × (drop n r ≡ c ∷ t)
drop-cons n [] h = elim h [ ]
drop-cons zero (c ∷ r) h = (c, r, refl)
drop-cons (suc n) (x ∷ r) h = drop-cons n r (omega arith)
