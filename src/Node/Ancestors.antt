-- ===== src/Node/Ancestors.antt =====
-- The walk of `S_can_contain` up to the root.
use mathlib.Core.Path.{subst}
use cmark.Prelude.{
  ℕ, zero, suc, ◌<◌, ◌≡◌, ◌≢◌, inl, inr, refl, Bool, true, false, ◌||◌, ◌==◌, if◌then◌else◌,
  Bool-cases, Returns, returns, Returns-bind, Returns-mono, arith,
}
use cmark.Node.{Ptr, null, Links, meets, may_hold, can_contain}

-- `a` is `p` itself or an ancestor of `p`.
pub data IsAbove (s : Links) (a : Ptr) : Ptr → Type 0 where
  here : IsAbove s a a
  up : {p : Ptr} → s.parent p ≢ null → IsAbove s a (s.parent p) → IsAbove s a p

-- Every node has a depth, less than `height`, and stands deeper than its parent.
pub record HasHeight (s : Links) (height : ℕ) : Type 0 where
  pub depth : Ptr → ℕ
  pub climbs : (p : Ptr) → p ≢ null → s.parent p ≢ null → depth (s.parent p) < depth p
  pub bounded : (p : Ptr) → depth p < height

-- A decision of `P` by a test.
abbrev pub Decides : Type 0 → Bool → Type 0
Decides P true = P
Decides P false = ¬ P

IsAbove-step :
    {s : Links} {a p : Ptr} → p ≢ a → IsAbove s a p → (s.parent p ≢ null) × IsAbove s a (s.parent p)
IsAbove-step ne here = absurd (ne refl)
IsAbove-step ne (up h above) = (h, above)

decide_up :
    (s : Links) (a p : Ptr)
    → s.parent p ≢ null
    → p ≢ a
    → (b : Bool) → Decides (IsAbove s a (s.parent p)) b
    → Decides (IsAbove s a p) b
decide_up s a p h ne true above = up h above
decide_up s a p h ne false below = λ above. below (IsAbove-step ne above).1

-- The value that the tests leave, by what the walk found.
allowed :
    (s : Links) (node child : Ptr)
    → node ≢ null
    → child ≢ null
    → (met : Bool) → Decides (IsAbove s child node) met
    → Decides
        ((node ≢ null) × (child ≢ null) × (¬ IsAbove s child node) × (may_hold s node child ≡ true))
        (if met then false else may_hold s node child)
allowed s node child a b true above = λ x. x.2 above
allowed s node child a b false below = elim (Bool-cases (may_hold s node child)) [
  | inl holds ↦ rw holds (a, b, below, refl)
  | inr not_held ↦ rw not_held (λ x. cc (x.3))
]

meets-Decides :
    (s : Links) (a : Ptr) (depth : Ptr → ℕ)
    → ((p : Ptr) → p ≢ null → s.parent p ≢ null → depth (s.parent p) < depth p)
    → (fuel : ℕ) (p : Ptr) → p ≢ null
    → depth p < fuel
    → Returns (λ b. Decides (IsAbove s a p) b) (meets fuel s p a)
unfolding meets
meets-Decides s a depth climbs zero p some_p enough = absurd (omega arith)
meets-Decides s a depth climbs (suc fuel) p some_p enough = elim (Bool-cases (p == a)) [
  | inl same ↦ let e : a ≡ p = ground arith in rw same (returns (subst (λ q. IsAbove s a q) e here))
  | inr other ↦
      let ne : p ≢ a = ground arith in
      elim (Bool-cases (s.parent p == null)) [
        | inl top ↦ rw (other, top) (returns λ above. (IsAbove-step ne above).0 (ground arith))
        | inr deeper ↦
            let some_parent : s.parent p ≢ null = ground arith in
            rw (other, deeper)
              (Returns-mono
                (meets-Decides s a depth climbs fuel (s.parent p) some_parent
                  (omega (arith, climbs p some_p some_parent)))
                λ b d. decide_up s a p some_parent ne b d)
      ]
]

-- With a bound on the height of the tree, the walk of S_can_contain always ends, and the answer is
-- true exactly if both nodes are given, the child is neither the node nor one of its ancestors, and
-- the tests on the types pass.
pub can_contain-Decides :
    {s : Links} {height : ℕ} (node child : Ptr)
    → HasHeight s height
    → Returns
        (λ b.
          Decides
            ((node ≢ null)
              × (child ≢ null)
              × (¬ IsAbove s child node)
              × (may_hold s node child ≡ true))
            b)
        (can_contain height s node child)
unfolding can_contain
can_contain-Decides {s} {height} node child h = elim (Bool-cases (node == null || child == null)) [
  | inl nothing ↦ rw nothing (returns λ x. ground arith)
  | inr both ↦
      let some_node : node ≢ null = ground arith in
      rw both (
        Returns-bind (meets-Decides s child h.depth h.climbs height node some_node (h.bounded node))
          λ met d. returns (allowed s node child some_node (ground arith) met d))
]
