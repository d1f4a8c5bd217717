-- ===== src/Scanners/Language.antt =====
-- The texts that a pattern of scanners.re stands for, and those that the derivatives stand for.
use cmark.Prelude.{
  ℕ, ◌≡◌, ◌⊎◌, inl, inr, refl, sym, ap, ◌∙◌, true, [], ◌∷◌, ◌++◌, if◌then◌else◌, Bool-cases, Bytes,
  arith,
}
use cmark.Scanners.{
  Regex, void, eps, chars, seq, alt, star, nullable, is_void, is_eps, either, chain, deriv,
}

-- Nonempty texts with `P`, one behind the other.
pub data Starred (P : Bytes → Type 0) : Bytes → Type 0 where
  no_more : Starred P []
  more :
      {s : Bytes} (c : ℕ) (u v : Bytes) → s ≡ c ∷ (u ++ v) → P (c ∷ u) → Starred P v → Starred P s

unfoldable pub Matches : Regex → Bytes → Type 0
Matches void s = ⊥
Matches eps s = s ≡ []
Matches (chars p) s = (c : ℕ) × (s ≡ c ∷ []) × (p c ≡ true)
Matches (seq a b) s = (u : Bytes) × (v : Bytes) × (s ≡ u ++ v) × Matches a u × Matches b v
Matches (alt a b) s = Matches a s ⊎ Matches b s
Matches (star a) s = Starred (Matches a) s

is_void_sound : (r : Regex) (s : Bytes) → is_void r ≡ true → Matches r s → ⊥
unfolding is_void Matches
is_void_sound void s h m = m
is_void_sound eps s h m = cc h
is_void_sound (chars p) s h m = cc h
is_void_sound (seq a b) s h m = cc h
is_void_sound (alt a b) s h m = cc h
is_void_sound (star a) s h m = cc h

is_eps_sound : (r : Regex) (s : Bytes) → is_eps r ≡ true → Matches r s → s ≡ []
unfolding is_eps Matches
is_eps_sound eps s h m = m
is_eps_sound void s h m = cc h
is_eps_sound (chars p) s h m = cc h
is_eps_sound (seq a b) s h m = cc h
is_eps_sound (alt a b) s h m = cc h
is_eps_sound (star a) s h m = cc h

is_eps_complete : (r : Regex) → is_eps r ≡ true → Matches r []
unfolding is_eps Matches
is_eps_complete eps h = refl
is_eps_complete void h = cc h
is_eps_complete (chars p) h = cc h
is_eps_complete (seq a b) h = cc h
is_eps_complete (alt a b) h = cc h
is_eps_complete (star a) h = cc h

either_sound : (a b : Regex) (s : Bytes) → Matches (either a b) s → Matches a s ⊎ Matches b s
unfolding either
either_sound a b s m = elim (Bool-cases (is_void a)) [
  | inl v ↦ inr (rw v at m)
  | inr v ↦ elim (Bool-cases (is_void b)) [
    | inl w ↦ inl (rw (v, w) at m)
    | inr w ↦ let both : Matches (alt a b) s = rw (v, w) at m in unfold Matches in both
  ]
]

either_complete : (a b : Regex) (s : Bytes) → Matches a s ⊎ Matches b s → Matches (either a b) s
unfolding either
either_complete a b s m = elim (Bool-cases (is_void a)) [
  | inl v ↦ rw v (elim m [ inl h ↦ absurd (is_void_sound a s v h) | inr h ↦ h ])
  | inr v ↦ elim (Bool-cases (is_void b)) [
    | inl w ↦ rw (v, w) (elim m [ inl h ↦ h | inr h ↦ absurd (is_void_sound b s w h) ])
    | inr w ↦ rw (v, w) (unfold Matches in m)
  ]
]

abbrev Split : Regex → Regex → Bytes → Type 0
Split a b s = (u : Bytes) × (v : Bytes) × (s ≡ u ++ v) × Matches a u × Matches b v

chain_sound : (a b : Regex) (s : Bytes) → Matches (chain a b) s → Split a b s
unfolding chain
chain_sound a b s m = elim (Bool-cases (is_void a)) [
  | inl v ↦ let never : Matches void s = rw v at m in absurd (unfold Matches in never)
  | inr v ↦ elim (Bool-cases (is_eps a)) [
    | inl w ↦ ([], s, refl, is_eps_complete a w, rw (v, w) at m)
    | inr w ↦ let both : Matches (seq a b) s = rw (v, w) at m in unfold Matches in both
  ]
]

chain_complete :
    (a b : Regex) (u v : Bytes) → Matches a u → Matches b v → Matches (chain a b) (u ++ v)
unfolding chain
chain_complete a b u v m n = elim (Bool-cases (is_void a)) [
  | inl h ↦ absurd (is_void_sound a u h m)
  | inr h ↦ elim (Bool-cases (is_eps a)) [
    | inl w ↦ rw (h, w, is_eps_sound a u w m) n
    | inr w ↦ rw (h, w) (unfold Matches in (u, v, refl, m, n))
  ]
]

pub nullable_sound : (r : Regex) → nullable r ≡ true → Matches r []
unfolding nullable Matches
nullable_sound void h = cc h
nullable_sound eps h = refl
nullable_sound (chars p) h = cc h
nullable_sound (seq a b) h =
    ([], [], refl, nullable_sound a (ground arith), nullable_sound b (ground arith))
nullable_sound (alt a b) h = elim (Bool-cases (nullable a)) [
  | inl e ↦ inl (nullable_sound a e)
  | inr e ↦ inr (nullable_sound b (ground arith))
]
nullable_sound (star a) h = no_more

append-nil_left : (u v : Bytes) → u ++ v ≡ [] → u ≡ []
append-nil_left [] v e = refl
append-nil_left (c ∷ u) v e = cc e

append-nil_right : (u v : Bytes) → u ++ v ≡ [] → v ≡ []
append-nil_right [] v e = e
append-nil_right (c ∷ u) v e = cc e

pub nullable_complete : (r : Regex) (s : Bytes) → s ≡ [] → Matches r s → nullable r ≡ true
unfolding nullable Matches
nullable_complete void s e m = absurd m
nullable_complete eps s e m = refl
nullable_complete (chars p) s e (c, f, h) = cc
nullable_complete (seq a b) s e (u, v, f, m, n) =
    let g : u ++ v ≡ [] = sym f ∙ e in
    rw (
      nullable_complete a u (append-nil_left u v g) m,
      nullable_complete b v (append-nil_right u v g) n,
    )
nullable_complete (alt a b) s e (inl m) = rw (nullable_complete a s e m)
nullable_complete (alt a b) s e (inr m) = elim (Bool-cases (nullable a)) [
  | inl h ↦ rw h
  | inr h ↦ rw (h, nullable_complete b s e m)
]
nullable_complete (star a) s e m = refl

same_head : {c d : ℕ} {s t : Bytes} → c ∷ s ≡ d ∷ t → c ≡ d
same_head e = cc

same_tail : {c d : ℕ} {s t : Bytes} → c ∷ s ≡ d ∷ t → s ≡ t
same_tail e = cc

-- A byte in front: the derivative is what may follow it.
pub deriv_sound : (c : ℕ) (r : Regex) (s : Bytes) → Matches (deriv c r) s → Matches r (c ∷ s)
unfolding deriv Matches
deriv_sound c void s m = m
deriv_sound c eps s m = absurd m
deriv_sound c (chars p) s m = elim (Bool-cases (p c)) [
  | inl h ↦ let e : Matches eps s = rw h at m in (c, ap (λ t. c ∷ t) e, h)
  | inr h ↦ let e : Matches void s = rw h at m in absurd e
]
deriv_sound c (seq a b) s m =
    elim (either_sound (chain (deriv c a) b) (if nullable a then deriv c b else void) s m) [
      | inl n ↦
          let (u, v, e, p, q) = chain_sound (deriv c a) b s n in
          (c ∷ u, v, ap (λ t. c ∷ t) e, deriv_sound c a u p, q)
      | inr n ↦ elim (Bool-cases (nullable a)) [
        | inl h ↦ ([], c ∷ s, refl, nullable_sound a h, deriv_sound c b s (rw h at n))
        | inr h ↦ let e : Matches void s = rw h at n in absurd e
      ]
    ]
deriv_sound c (alt a b) s m = elim (either_sound (deriv c a) (deriv c b) s m) [
  | inl n ↦ inl (deriv_sound c a s n)
  | inr n ↦ inr (deriv_sound c b s n)
]
deriv_sound c (star a) s m =
    let (u, v, e, p, q) = chain_sound (deriv c a) (star a) s m in
    more c u v (ap (λ t. c ∷ t) e) (deriv_sound c a u p) q

pub deriv_complete :
    (c : ℕ) (r : Regex) (s t : Bytes) → t ≡ c ∷ s → Matches r t → Matches (deriv c r) s
unfolding deriv Matches
deriv_complete c void s t e m = m
deriv_complete c eps s t e m = cc
deriv_complete c (chars p) s t e (d, f, h) =
    let g : d ∷ [] ≡ c ∷ s = sym f ∙ e in
    let h' : p c ≡ true = ap p (sym (same_head g)) ∙ h in rw h' (sym (same_tail g))
deriv_complete c (seq a b) s t e ([], v, f, m, n) =
    let here = deriv_complete c b s v (sym f ∙ e) n in
    either_complete (chain (deriv c a) b) (if nullable a then deriv c b else void) s
      (inr (rw (nullable_complete a [] refl m) here))
deriv_complete c (seq a b) s t e (d ∷ u, v, f, m, n) =
    let g : d ∷ (u ++ v) ≡ c ∷ s = sym f ∙ e in
    let here = deriv_complete c a u (d ∷ u) (ap (λ x. x ∷ u) (same_head g)) m in
    either_complete (chain (deriv c a) b) (if nullable a then deriv c b else void) s
      (inl (rw (← same_tail g) (chain_complete (deriv c a) b u v here n)))
deriv_complete c (alt a b) s t e (inl m) =
    either_complete (deriv c a) (deriv c b) s (inl (deriv_complete c a s t e m))
deriv_complete c (alt a b) s t e (inr m) =
    either_complete (deriv c a) (deriv c b) s (inr (deriv_complete c b s t e m))
deriv_complete c (star a) s t e no_more = cc
deriv_complete c (star a) s t e (more d u v f m n) =
    let g : d ∷ (u ++ v) ≡ c ∷ s = sym f ∙ e in
    let here = deriv_complete c a u (d ∷ u) (ap (λ x. x ∷ u) (same_head g)) m in
    rw (← same_tail g) (chain_complete (deriv c a) (star a) u v here n)
