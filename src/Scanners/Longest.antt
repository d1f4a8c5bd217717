-- ===== src/Scanners/Longest.antt =====
-- The matcher finds the longest match, and a scanner the longest match of its rules.
use Prim.Native.Nat.{zero-le}
use cmark.Prelude.{
  ℕ, zero, suc, ◌≤◌, ◌≡◌, inl, inr, refl, sym, ◌∙◌, true, false, Option, none, some, [], ◌∷◌,
  Bool-cases, length, take, Bytes, ok, bind_eq_ok, ok_eq, arith,
}
use mathlib.Core.Path.{subst}
use cmark.Scanners.{
  Regex, void, eps, chars, seq, alt, star, nullable, deriv, dead, can_go, or_here, stop_here,
  longest,
}
use cmark.Scanners.Language.{
  no_more, more, Matches, nullable_sound, nullable_complete, deriv_sound, deriv_complete,
}

dead_sound : (r : Regex) (s : Bytes) → dead r ≡ true → Matches r s → ⊥
unfolding dead Matches
dead_sound void s h m = m
dead_sound eps s h m = cc
dead_sound (chars p) s h m = cc
dead_sound (seq a b) s h (u, v, e, m, n) = elim (Bool-cases (dead a)) [
  | inl d ↦ dead_sound a u d m
  | inr d ↦ dead_sound b v (ground arith) n
]
dead_sound (alt a b) s h (inl m) = dead_sound a s (ground arith) m
dead_sound (alt a b) s h (inr m) = dead_sound b s (ground arith) m
dead_sound (star a) s h m = cc h

-- A pattern that cannot go on has no nonempty text.
can_go_sound : (r : Regex) (c : ℕ) (s t : Bytes) → t ≡ c ∷ s → can_go r ≡ false → Matches r t → ⊥
unfolding can_go Matches
can_go_sound void c s t e h m = m
can_go_sound eps c s t e h m = cc
can_go_sound (chars p) c s t e h m = cc h
can_go_sound (seq a b) c s t e h ([], v, f, m, n) = elim (Bool-cases (dead a)) [
  | inl d ↦ dead_sound a [] d m
  | inr d ↦ can_go_sound b c s v (sym f ∙ e) (ground arith) n
]
can_go_sound (seq a b) c s t e h (d ∷ u, v, f, m, n) = elim (Bool-cases (dead b)) [
  | inl k ↦ dead_sound b v k n
  | inr k ↦ can_go_sound a d u (d ∷ u) refl (ground arith) m
]
can_go_sound (alt a b) c s t e h (inl m) = can_go_sound a c s t e (ground arith) m
can_go_sound (alt a b) c s t e h (inr m) = can_go_sound b c s t e (ground arith) m
can_go_sound (star a) c s t e h no_more = cc
can_go_sound (star a) c s t e h (more d u v f m n) = can_go_sound a d u (d ∷ u) refl h m

-- The length of the longest match at the start of a memory, if there is one.
abbrev pub IsLongest : Regex → Bytes → Option ℕ → Type 0
IsLongest r m none = (k : ℕ) → k ≤ length m → ¬ (Matches r (take k m))
IsLongest r m (some n) =
    (n ≤ length m) × Matches r (take n m) × ((k : ℕ) → k ≤ length m → Matches r (take k m) → k ≤ n)

-- Where only the empty text can match.
stop-IsLongest :
    (r : Regex) (m : Bytes)
    → ((k : ℕ) → suc k ≤ length m → ¬ (Matches r (take (suc k) m)))
    → IsLongest r m (stop_here r)
unfolding stop_here
stop-IsLongest r m only = elim (Bool-cases (nullable r)) [
  | inl h ↦ rw h (zero-le, nullable_sound r h, at_most)
  | inr h ↦ rw h (no_match h)
]
  where
    at_most : (k : ℕ) → k ≤ length m → Matches r (take k m) → k ≤ 0
    at_most zero le n = omega arith
    at_most (suc k) le n = absurd (only k le n)

    no_match : nullable r ≡ false → (k : ℕ) → k ≤ length m → ¬ (Matches r (take k m))
    no_match h zero le n = cc (nullable_complete r [] refl n)
    no_match h (suc k) le n = only k le n

step-IsLongest :
    (r : Regex) (c : ℕ) (m : Bytes) (o : Option ℕ)
    → IsLongest (deriv c r) m o
    → IsLongest r (c ∷ m) (or_here r o)
unfolding or_here
step-IsLongest r c m (some n) (inside, match, most) =
    (omega arith, deriv_sound c r (take n m) match, at_most)
  where
    at_most : (k : ℕ) → k ≤ suc (length m) → Matches r (take k (c ∷ m)) → k ≤ suc n
    at_most zero le h = omega arith
    at_most (suc k) le h =
        omega (arith, most k (omega arith) (deriv_complete c r (take k m) _ refl h))
step-IsLongest r c m none never =
    unfold stop_here in
    stop-IsLongest r (c ∷ m)
      (λ k le h. never k (omega arith) (deriv_complete c r (take k m) _ refl h))

-- What the matcher returns is the length of the longest match.
pub longest-IsLongest :
    (r : Regex) (m : Bytes) (o : Option ℕ) → longest r m ≡ ok o → IsLongest r m o
unfolding longest
longest-IsLongest r [] o e = elim (Bool-cases (can_go r)) [
  | inl h ↦ cc (rw h at e)
  | inr h ↦
      let same = ok_eq (rw h at e) in
      subst (IsLongest r []) same (stop-IsLongest r [] (λ k le n. absurd (omega arith)))
]
longest-IsLongest r (c ∷ m) o e = elim (Bool-cases (can_go r)) [
  | inl h ↦
      let (a, first, last) =
        bind_eq_ok (longest (deriv c r) m) (λ o. ok (or_here r o)) (rw h at e) in
      subst (IsLongest r (c ∷ m)) (ok_eq last)
        (step-IsLongest r c m a (longest-IsLongest (deriv c r) m a first))
  | inr h ↦
      let same = ok_eq (rw h at e) in
      subst (IsLongest r (c ∷ m)) same
        (stop-IsLongest r (c ∷ m) (λ k le n. can_go_sound r c (take k m) _ refl h n))
]
