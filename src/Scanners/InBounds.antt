-- ===== src/Scanners/InBounds.antt =====
-- A scanner whose patterns have no NUL reads no further than the terminator.
use cmark.Prelude.{
  ℕ, ◌≡◌, refl, Bool, true, not, ◌&&◌, inl, inr, Option, none, [], ◌∷◌, ◌++◌, if◌then◌else◌,
  Bool-cases, Bytes, ok, arith,
}
use cmark.Scanners.{
  Regex, void, eps, chars, seq, alt, star, nullable, is_void, is_eps, either, chain, deriv, can_go,
  or_here, stop_here, longest,
}

-- No text of the pattern holds a NUL.
unfoldable pub no_nul : Regex → Bool
no_nul void = true
no_nul eps = true
no_nul (chars p) = not (p 0)
no_nul (seq a b) = no_nul a && no_nul b
no_nul (alt a b) = no_nul a && no_nul b
no_nul (star a) = no_nul a

either-no_nul : (a b : Regex) → no_nul a ≡ true → no_nul b ≡ true → no_nul (either a b) ≡ true
unfolding either no_nul
either-no_nul a b h k = elim (Bool-cases (is_void a)) [
  | inl v ↦ rw v k
  | inr v ↦ elim (Bool-cases (is_void b)) [ inl w ↦ rw (v, w) h | inr w ↦ rw (v, w, h, k) ]
]

chain-no_nul : (a b : Regex) → no_nul a ≡ true → no_nul b ≡ true → no_nul (chain a b) ≡ true
unfolding chain no_nul
chain-no_nul a b h k = elim (Bool-cases (is_void a)) [
  | inl v ↦ rw v
  | inr v ↦ elim (Bool-cases (is_eps a)) [ inl w ↦ rw (v, w) k | inr w ↦ rw (v, w, h, k) ]
]

deriv-no_nul : (c : ℕ) (r : Regex) → no_nul r ≡ true → no_nul (deriv c r) ≡ true
unfolding deriv no_nul
deriv-no_nul c void h = refl
deriv-no_nul c eps h = refl
deriv-no_nul c (chars p) h = elim (Bool-cases (p c)) [ inl e ↦ rw e | inr e ↦ rw e ]
deriv-no_nul c (seq a b) h =
    let first = chain-no_nul (deriv c a) b (deriv-no_nul c a (ground arith)) (ground arith) in
    let later = deriv-no_nul c b (ground arith) in
    either-no_nul (chain (deriv c a) b) (if nullable a then deriv c b else void) first
      (elim (Bool-cases (nullable a)) [ inl e ↦ rw e later | inr e ↦ rw e ])
deriv-no_nul c (alt a b) h =
    either-no_nul (deriv c a) (deriv c b) (deriv-no_nul c a (ground arith))
      (deriv-no_nul c b (ground arith))
deriv-no_nul c (star a) h = chain-no_nul (deriv c a) (star a) (deriv-no_nul c a h) h

-- Behind a NUL nothing can match.
deriv-void : (r : Regex) → no_nul r ≡ true → deriv 0 r ≡ void
unfolding deriv no_nul
deriv-void void h = refl
deriv-void eps h = refl
deriv-void (chars p) h = elim (Bool-cases (p 0)) [ inl e ↦ cc (rw e at h) | inr e ↦ rw e ]
deriv-void (seq a b) h =
    rw (deriv-void a (ground arith), deriv-void b (ground arith))
      (elim (Bool-cases (nullable a)) [ inl e ↦ rw e | inr e ↦ rw e ])
deriv-void (alt a b) h = rw (deriv-void a (ground arith), deriv-void b (ground arith))
deriv-void (star a) h = rw (deriv-void a h)

longest-void : (m : Bytes) → longest void m ≡ ok none
unfolding longest
longest-void [] = refl
longest-void (c ∷ m) = refl

-- The matcher returns on a text with a terminator.
pub longest-returns :
    (r : Regex) (s rest : Bytes)
    → no_nul r ≡ true
    → (o : Option ℕ) × (longest r (s ++ 0 ∷ rest) ≡ ok o)
unfolding longest
longest-returns r [] rest h = elim (Bool-cases (can_go r)) [
  | inl e ↦ (or_here r none, rw (e, deriv-void r h, longest-void rest))
  | inr e ↦ (stop_here r, rw e)
]
longest-returns r (c ∷ s) rest h = elim (Bool-cases (can_go r)) [
  | inl e ↦
      let (o, f) = longest-returns (deriv c r) s rest (deriv-no_nul c r h) in
      (or_here r o, rw (e, f))
  | inr e ↦ (stop_here r, rw e)
]
