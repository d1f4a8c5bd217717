-- ===== src/Houdini/Unescape/Lookup.antt =====
-- The binary search of `S_lookup` finds exactly the names of a sorted table.
use mathlib.Core.Path.{subst}
use cmark.Prelude.{
  ℕ, zero, suc, ◌+◌, ◌-◌, ◌/◌, ◌≤◌, ◌<◌, ◌≡◌, ◌≢◌, refl, sym, ap, ◌∙◌, inl, inr, Bool, true, false,
  Option, none, some, List, [], ◌∷◌, ◌==◌, ltb, if◌then◌else◌, length, get_elem?, Bytes, ok,
  Returns, returns, Returns-mono, Bool-cases, arith,
}
use cmark.Prelude.Int.{ℤ, pos, negsuc}
use cmark.Houdini.Unescape.{
  Entity, strncmp, matches, not_positive, left_of, right_of, lookup, lookup_entity,
}

-- The order of C strings.
unfoldable pub before : Bytes → Bytes → Bool
before [] [] = false
before [] (d ∷ t) = true
before (c ∷ s) [] = false
before (c ∷ s) (d ∷ t) =
    let rest = before s t in if ltb c d then true else if ltb d c then false else rest

abbrev pub NoNul : Bytes → Type 0
NoNul [] = Unit {0}
NoNul (c ∷ s) = (c ≢ 0) × NoNul s

pub before_asym : (s t : Bytes) → before s t ≡ true → before t s ≡ false
unfolding before
before_asym [] [] h = refl
before_asym [] (d ∷ t) h = refl
before_asym (c ∷ s) [] h = cc h
before_asym (c ∷ s) (d ∷ t) h = ground (arith, before_asym s t)

data Compared (s name : Bytes) : Type 0 where
  alike : s ≡ name → matches (strncmp s name) s name ≡ ok true → Compared s name
  lower :
      before s name ≡ true
      → matches (strncmp s name) s name ≡ ok false
      → not_positive (strncmp s name) ≡ true
      → Compared s name
  upper :
      before name s ≡ true
      → matches (strncmp s name) s name ≡ ok false
      → not_positive (strncmp s name) ≡ false
      → Compared s name

matches-cons : (r : ℤ) (c d : ℕ) (s name : Bytes) → matches r (c ∷ s) (d ∷ name) ≡ matches r s name
unfolding matches
matches-cons (pos zero) c d s name = refl
matches-cons (pos (suc n)) c d s name = refl
matches-cons (negsuc n) c d s name = refl

compare_heads :
    (c d : ℕ) (s name : Bytes) → c ≢ 0 → c ≡ d → Compared s name → Compared (c ∷ s) (d ∷ name)
compare_heads c d s name some_c e rest =
    let cmp : strncmp (c ∷ s) (d ∷ name) ≡ strncmp s name = unfold strncmp in ground arith in
    let order : before (c ∷ s) (d ∷ name) ≡ before s name = unfold before in ground arith in
    let back : before (d ∷ name) (c ∷ s) ≡ before name s = unfold before in ground arith in
    let deeper = matches-cons (strncmp s name) c d s name in
    elim rest [
      | alike same_tail found ↦
          let heads : c ∷ s ≡ d ∷ name = cc in alike heads (rw (cmp, deeper) found)
      | lower b m np ↦ lower (order ∙ b) (rw (cmp, deeper) m) (rw cmp np)
      | upper b m np ↦ upper (back ∙ b) (rw (cmp, deeper) m) (rw cmp np)
    ]

compare_names : (s name : Bytes) → NoNul s → NoNul name → Compared s name
compare_names [] [] hs hn = unfold strncmp in alike refl (unfold matches in refl)
compare_names [] (d ∷ name) hs hn =
    let other : (d == 0) ≡ false = ground (arith, hn.0) in
    lower (unfold before in refl) (unfold strncmp matches in rw other refl)
      (unfold strncmp not_positive in refl)
compare_names (c ∷ s) [] hs hn =
    let other : (c == 0) ≡ false = ground (arith, hs.0) in
    let cmp : strncmp (c ∷ s) [] ≡ pos 1 = unfold strncmp in rw other refl in
    upper (unfold before in refl) (rw cmp (unfold matches in refl))
      (rw cmp (unfold not_positive in refl))
compare_names (c ∷ s) (d ∷ name) hs hn = elim (Bool-cases (ltb c d)) [
  | inl less ↦
      let cmp : strncmp (c ∷ s) (d ∷ name) ≡ negsuc 0 = unfold strncmp in rw less refl in
      lower (unfold before in rw less refl) (rw cmp (unfold matches in refl))
        (rw cmp (unfold not_positive in refl))
  | inr not_less ↦ elim (Bool-cases (ltb d c)) [
    | inl more ↦
        let cmp : strncmp (c ∷ s) (d ∷ name) ≡ pos 1 = unfold strncmp in rw (not_less, more) refl in
        upper (unfold before in rw more refl) (rw cmp (unfold matches in refl))
          (rw cmp (unfold not_positive in refl))
    | inr not_more ↦ compare_heads c d s name hs.0 (ground arith) (compare_names s name hs.1 hn.1)
  ]
]

-- The table is in order, and its names are C strings.
pub record IsSorted (entities : List Entity) : Type 0 where
  pub ascending :
      (i j : ℕ) (d e : Entity)
      → i < j
      → get_elem? entities i ≡ some d
      → get_elem? entities j ≡ some e
      → before d.name e.name ≡ true
  pub clean : (i : ℕ) (e : Entity) → get_elem? entities i ≡ some e → NoNul e.name

-- The answer for the name `s` between two indices.
abbrev pub Looked : List Entity → ℕ → ℕ → Bytes → Option Bytes → Type 0
Looked entities low hi s (some v) =
    (k : ℕ) × (get_elem? entities k ≡ some (record { name = s; bytes = v }))
Looked entities low hi s none =
    (k : ℕ) (e : Entity) → low ≤ k → k ≤ hi → get_elem? entities k ≡ some e → e.name ≢ s

left_of_bounds : (i low : ℕ) → low < i → (low ≤ left_of i low) × (left_of i low ≤ i - 1)
unfolding left_of
left_of_bounds i low h = ground arith

right_of_bounds : (i hi : ℕ) → i < hi → (i + 1 ≤ right_of i hi) × (right_of i hi ≤ hi)
unfolding right_of
right_of_bounds i hi h = ground arith

get_below :
    (entities : List Entity) (i : ℕ)
    → i < length entities
    → (e : Entity) × (get_elem? entities i ≡ some e)
get_below [] i h = absurd (omega arith)
get_below (e ∷ entities) zero h = (e, refl)
get_below (e ∷ entities) (suc i) h = get_below entities i (omega arith)

module _ (entities : List Entity) (sorted : IsSorted entities) (s : Bytes) (text : NoNul s) where
  irreflexive : before s s ≡ true → ⊥
  irreflexive h = let b = before_asym s s h in cc (h, b)

  -- Nothing at or behind an entry after `s`, and nothing at or ahead of one before it.
  not_behind :
      (i k : ℕ) (e d : Entity)
      → get_elem? entities i ≡ some e
      → before s e.name ≡ true
      → i ≤ k
      → get_elem? entities k ≡ some d
      → d.name ≢ s
  not_behind i k e d at_i order le at_k same = elim (Bool-cases (i == k)) [
    | inl here ↦
        let ik : i ≡ k = ground arith in
        let ed : e ≡ d = cc (at_i, at_k, ik) in
        irreflexive (subst (λ t. before s t ≡ true) (ap (λ x. x.name) ed ∙ same) order)
    | inr further ↦
        let after = sorted.ascending i k e d (ground arith) at_i at_k in
        let against = before_asym s e.name order in
        let after_s : before e.name s ≡ true = subst (λ t. before e.name t ≡ true) same after in
        cc (after_s, against)
  ]

  not_ahead :
      (i k : ℕ) (e d : Entity)
      → get_elem? entities i ≡ some e
      → before e.name s ≡ true
      → k ≤ i
      → get_elem? entities k ≡ some d
      → d.name ≢ s
  not_ahead i k e d at_i order le at_k same = elim (Bool-cases (i == k)) [
    | inl here ↦
        let ik : i ≡ k = ground arith in
        let ed : e ≡ d = cc (at_i, at_k, ik) in
        irreflexive (subst (λ t. before t s ≡ true) (ap (λ x. x.name) ed ∙ same) order)
    | inr further ↦
        let ahead = sorted.ascending k i d e (ground arith) at_k at_i in
        let against = before_asym e.name s order in
        let ahead_s : before s e.name ≡ true = subst (λ t. before t e.name ≡ true) same ahead in
        cc (ahead_s, against)
  ]

  -- The answers for the parts of a range, where the entry at `i` is another name.
  from_left :
      (i low hi : ℕ) (e : Entity)
      → get_elem? entities i ≡ some e
      → before s e.name ≡ true
      → (r : Option Bytes) → Looked entities low (i - 1) s r
      → Looked entities low hi s r
  from_left i low hi e at_i order (some v) found = found
  from_left i low hi e at_i order none nowhere = λ k d lo up at_k. elim (Bool-cases (ltb k i)) [
    | inl left ↦ nowhere k d lo (ground arith) at_k
    | inr right ↦ not_behind i k e d at_i order (ground arith) at_k
  ]

  from_right :
      (i low hi : ℕ) (e : Entity)
      → get_elem? entities i ≡ some e
      → before e.name s ≡ true
      → (r : Option Bytes) → Looked entities (i + 1) hi s r
      → Looked entities low hi s r
  from_right i low hi e at_i order (some v) found = found
  from_right i low hi e at_i order none nowhere = λ k d lo up at_k. elim (Bool-cases (ltb i k)) [
    | inl right ↦ nowhere k d (ground arith) up at_k
    | inr left ↦ not_ahead i k e d at_i order (ground arith) at_k
  ]

  -- The search in a range gives the answer for that range.
  lookup-Looked :
      (fuel i low hi : ℕ)
      → hi - low < fuel
      → low ≤ i
      → i ≤ hi
      → hi < length entities
      → Returns (Looked entities low hi s) (lookup entities fuel i low hi s)
  unfolding lookup
  lookup-Looked zero i low hi enough a b inside = absurd (omega arith)
  lookup-Looked (suc fuel) i low hi enough a b inside =
      let (e, at_i) = get_below entities i (omega arith) in
      rw (at_i, lookup)
        (elim (compare_names s e.name text (sorted.clean i e at_i)) [
          | alike is_s found ↦
              let entry : e ≡ record { name = s; bytes = e.bytes } =
                ap (λ t. record { name = t; bytes = e.bytes }) (sym is_s) in
              rw found (returns (i, at_i ∙ ap (λ x. some x) entry))
          | lower order no_match np ↦
              rw (no_match, np)
                (elim (Bool-cases (ltb low i)) [
                  | inl some_left ↦
                      let bounds = left_of_bounds i low (ground arith) in
                      rw some_left (
                        Returns-mono
                          (lookup-Looked fuel (left_of i low) low (i - 1) (ground arith) bounds.0
                            bounds.1 (omega arith))
                          (from_left i low hi e at_i order))
                  | inr nothing ↦
                      rw nothing (
                        returns λ k d lo up at_k. not_behind i k e d at_i order (ground arith) at_k)
                ])
          | upper order no_match np ↦
              rw (no_match, np)
                (elim (Bool-cases (ltb i hi)) [
                  | inl some_right ↦
                      let bounds = right_of_bounds i hi (ground arith) in
                      rw some_right (
                        Returns-mono
                          (lookup-Looked fuel (right_of i hi) (i + 1) hi (ground arith) bounds.0
                            bounds.1 inside)
                          (from_right i low hi e at_i order))
                  | inr nothing ↦
                      rw nothing
                        (returns λ k d lo up at_k. not_ahead i k e d at_i order (ground arith) at_k)
                ])
        ])

  -- In a table that is not empty, is in ascending order and whose names are C strings, the binary
  -- search of S_lookup ends for every name without a NUL; it finds the bytes of an entry with
  -- exactly that name, and finds nothing only if no entry has it.
  pub lookup_entity-Looked :
      0 < length entities
      → Returns (Looked entities 0 (length entities - 1) s) (lookup_entity entities s)
  unfolding lookup_entity
  lookup_entity-Looked some_entries =
      lookup-Looked (length entities + 1) (length entities / 2) 0 (length entities - 1)
        (omega arith) (omega arith) (omega arith) (omega arith)
