-- ===== src/Node/Insert/Laws.antt =====
-- What the inserting operations do to well-formed links.
use mathlib.Core.Path.{subst}
use cmark.Prelude.{
  ℕ, ◌≡◌, ◌≢◌, inl, inr, refl, Bool, true, false, ◌||◌, ◌==◌, if◌then◌else◌, ok, Returns, returns,
  Returns-bind, Bool-cases, ◌>>=◌, sym, arith,
}
use cmark.Node.{Ptr, null, Links, can_contain, may_hold, s_unlink, unlink}
use cmark.Node.Ancestors.{IsAbove, here, HasHeight, Decides, can_contain-Decides}
use cmark.Node.Unlink.{IsLinked, unlink-IsLinked, parent-unlink}
use cmark.Node.Splice.{Gap, Spliced, splice-IsLinked}
use cmark.Node.Insert.{
  place_before, place_after, insert_before, insert_after, replace, prepend_child, append_child,
}
use cmark.Node.Insert.Places.{
  before-Spliced, after-Spliced, first-Spliced, last-Spliced, before-Gap, after-Gap, first-Gap,
  last-Gap,
}

-- The node `n` may be held by `m`.
abbrev pub Fits : Links → Ptr → Ptr → Type 0
Fits s m n = (m ≢ null) × (n ≢ null) × (¬ IsAbove s n m) × (may_hold s m n ≡ true)

-- The outcome of putting `n` under `m` between `a` and `b`, which `Allowed` permits: done exactly if
-- permitted, and else nothing is changed.
pub record Placed (Allowed : Type 0) (s : Links) (n m a b : Ptr) (result : Bool × Links)
    : Type 0 where
  pub decided : Decides Allowed result.0
  pub linked : IsLinked result.1
  pub refused : result.0 ≡ false → result.1 ≡ s
  pub done : result.0 ≡ true → Spliced (unlink s n) result.1 n m a b

unchanged :
    {Allowed : Type 0} {s : Links} {n m a b : Ptr}
    → ¬ Allowed
    → IsLinked s
    → Placed Allowed s n m a b (false, s)
unchanged barred w = record { decided = barred; linked = w; refused = λ e. refl; done = λ e. cc e }

relinked :
    {Allowed : Type 0} {s r : Links} {n m a b : Ptr}
    → Allowed
    → IsLinked s
    → n ≢ null
    → Gap (unlink s n) m a b
    → Spliced (unlink s n) r n m a b
    → Placed Allowed s n m a b (true, r)
relinked {s} {n} allowed w some_n g z = record {
  decided = allowed;
  linked =
      splice-IsLinked (unlink-IsLinked w n some_n) some_n
        (ground (arith, parent-unlink s n some_n n)) g z;
  refused = λ e. cc e;
  done = λ e. z;
}

-- The common end of the operations: a decision that the node may be held, and the relinking.
by_decision :
    (Allowed : Type 0) (s r : Links) (holder n m a b : Ptr)
    → IsLinked s
    → (Fits s holder n → Placed Allowed s n m a b (true, r))
    → (¬ Fits s holder n → ¬ Allowed)
    → (fits : Bool) → Decides (Fits s holder n) fits
    → Returns (Placed Allowed s n m a b) (if fits then ok (true, r) else ok (false, s))
by_decision Allowed s r holder n m a b w place barred true d = returns (place d)
by_decision Allowed s r holder n m a b w place barred false d = returns (unchanged (barred d) w)

-- `a` and `p` differ where `a` is above nothing on the way to `p`.
apart_above : {s : Links} {n p : Ptr} → ¬ IsAbove s n p → p ≢ n
apart_above {s} {n} {p} below e = below (subst (λ q. IsAbove s n q) (sym e) here)

module _ {s : Links} {fuel : ℕ} (w : IsLinked s) (h : HasHeight s fuel) (node n : Ptr) where
  -- On well-formed links of bounded height, cmark_node_prepend_child returns, and reports success
  -- exactly if both nodes are given, the child is neither the parent nor above it, and the types
  -- allow it. Then the child is moved from its place to the place before the former first child, and
  -- the links stay well formed. Without success nothing is changed.
  pub prepend_child-Placed :
      Returns
        (Placed (Fits s node n) s n node null ((unlink s n).first_child node))
        (prepend_child fuel s node n)
  unfolding prepend_child
  prepend_child-Placed = Returns-bind (can_contain-Decides node n h) (
      by_decision (Fits s node n) s _ node n _ _ _ w
        (λ f.
          relinked f w f.1 (first-Gap (unlink-IsLinked w n f.1) node f.0)
            (first-Spliced w node n f.0 f.1 (apart_above f.2)))
        (λ barred. barred))

  -- The same of cmark_node_append_child and the place behind the former last child: on well-formed
  -- links of bounded height it reports success exactly if both nodes are given, the child is neither
  -- the parent nor above it, and the types allow it. Without success nothing is changed.
  pub append_child-Placed :
      Returns
        (Placed (Fits s node n) s n node ((unlink s n).last_child node) null)
        (append_child fuel s node n)
  unfolding append_child
  append_child-Placed = Returns-bind (can_contain-Decides node n h) (
      by_decision (Fits s node n) s _ node n _ _ _ w
        (λ f.
          relinked f w f.1 (last-Gap (unlink-IsLinked w n f.1) node f.0)
            (last-Spliced w node n f.0 f.1 (apart_above f.2)))
        (λ barred. barred))

-- The operations on siblings, where the two nodes differ.
module _ {s : Links} {fuel : ℕ} (w : IsLinked s) (h : HasHeight s fuel) (node n : Ptr)
    (apart : node ≢ n) where
  same_parent : n ≢ null → (unlink s n).parent node ≡ s.parent node
  same_parent some_n = ground (arith, parent-unlink s n some_n node)

  before_done :
      node ≢ null
      → Fits s (s.parent node) n
      → Placed
          ((node ≢ null) × Fits s (s.parent node) n)
          s
          n
          (s.parent node)
          ((unlink s n).prev node)
          node
          (true, place_before (s_unlink s n) node n)
  before_done some_node f =
      let e = same_parent f.1 in
      let in_tree : (unlink s n).parent node ≢ null = λ z. f.0 (cc (e, z)) in
      relinked (some_node, f) w f.1
        (subst (λ m. Gap (unlink s n) m ((unlink s n).prev node) node) e
          (before-Gap (unlink-IsLinked w n f.1) node some_node in_tree))
        (subst
          (λ m.
            Spliced (unlink s n) (place_before (s_unlink s n) node n) n m ((unlink s n).prev node)
              node)
          e (before-Spliced w node n some_node f.1 apart in_tree))

  after_done :
      node ≢ null
      → Fits s (s.parent node) n
      → Placed
          ((node ≢ null) × Fits s (s.parent node) n)
          s
          n
          (s.parent node)
          node
          ((unlink s n).next node)
          (true, place_after (s_unlink s n) node n)
  after_done some_node f =
      let e = same_parent f.1 in
      let in_tree : (unlink s n).parent node ≢ null = λ z. f.0 (cc (e, z)) in
      relinked (some_node, f) w f.1
        (subst (λ m. Gap (unlink s n) m node ((unlink s n).next node)) e
          (after-Gap (unlink-IsLinked w n f.1) node some_node in_tree))
        (subst
          (λ m.
            Spliced (unlink s n) (place_after (s_unlink s n) node n) n m node
              ((unlink s n).next node))
          e (after-Spliced w node n some_node f.1 apart in_tree))

  -- The tests in front, then the decision and the relinking.
  guarded :
      (a b : Ptr) (r : Links)
      → (node ≢ null
          → Fits s (s.parent node) n
          → Placed ((node ≢ null) × Fits s (s.parent node) n) s n (s.parent node) a b (true, r))
      → Returns (Placed ((node ≢ null) × Fits s (s.parent node) n) s n (s.parent node) a b) (
          if node == null || n == null
          then ok (false, s)
          else if s.parent node == null
          then ok (false, s)
          else can_contain fuel s (s.parent node) n >>= λ fits.
              if fits then ok (true, r) else ok (false, s))
  guarded a b r place = elim (Bool-cases (node == null || n == null)) [
    | inl missing ↦ rw missing (returns (unchanged (λ x. ground (arith, x.0, x.1.1)) w))
    | inr given ↦ rw given (elim (Bool-cases (s.parent node == null)) [
      | inl root ↦ rw root (returns (unchanged (λ x. x.1.0 (ground arith)) w))
      | inr below ↦
          let some_node : node ≢ null = ground arith in
          rw below (
            Returns-bind (can_contain-Decides (s.parent node) n h) (
              by_decision ((node ≢ null) × Fits s (s.parent node) n) s r (s.parent node) n _ _ _ w
                (place some_node) (λ barred x. barred x.1)))
    ])
  ]

  -- On well-formed links of bounded height, and for two different nodes, cmark_node_insert_before
  -- returns. It reports success exactly if the other node is not null and its parent may hold the
  -- node. Then the node is moved, and no other link changes, from its place to the place before the
  -- other node; the links stay well formed. Without success nothing is changed.
  pub insert_before-Placed :
      Returns
        (Placed
          ((node ≢ null) × Fits s (s.parent node) n)
          s
          n
          (s.parent node)
          ((unlink s n).prev node)
          node)
        (insert_before fuel s node n)
  unfolding insert_before
  insert_before-Placed = guarded _ _ _ before_done

  -- The same of cmark_node_insert_after: on well-formed links of bounded height, and for two
  -- different nodes, it reports success exactly if the other node is not null and its parent may
  -- hold the node; then the node is moved to the place after the other node, and the links stay well
  -- formed. Without success nothing is changed.
  pub insert_after-Placed :
      Returns
        (Placed
          ((node ≢ null) × Fits s (s.parent node) n)
          s
          n
          (s.parent node)
          node
          ((unlink s n).next node))
        (insert_after fuel s node n)
  unfolding insert_after
  insert_after-Placed = guarded _ _ _ after_done

-- What a replacement leaves: well-formed links, and the old node outside the tree or nothing changed.
pub record Replaced (s : Links) (oldnode newnode : Ptr) (result : Bool × Links) : Type 0 where
  pub linked : IsLinked result.1
  pub decided : Decides ((oldnode ≢ null) × Fits s (s.parent oldnode) newnode) result.0
  pub refused : result.0 ≡ false → result.1 ≡ s
  pub gone : result.0 ≡ true → result.1.parent oldnode ≡ null
  pub held : result.0 ≡ true → result.1.parent newnode ≡ s.parent oldnode

module _ {s : Links} {fuel : ℕ} (w : IsLinked s) (h : HasHeight s fuel) (oldnode newnode : Ptr)
    (apart : oldnode ≢ newnode) where
  replaced :
      (result : Bool × Links)
      → Placed
          ((oldnode ≢ null) × Fits s (s.parent oldnode) newnode)
          s
          newnode
          (s.parent oldnode)
          ((unlink s newnode).prev oldnode)
          oldnode
          result
      → Returns
          (Replaced s oldnode newnode)
          (if result.0 then ok (true, unlink result.1 oldnode) else ok (false, result.1))
  replaced (true, r) p = returns (record {
    linked = unlink-IsLinked p.linked oldnode p.decided.0;
    decided = p.decided;
    refused = λ e. cc e;
    gone = λ e. ground (arith, parent-unlink r oldnode p.decided.0 oldnode);
    held = λ e.
        ground
          (arith, parent-unlink r oldnode p.decided.0 newnode, (p.done refl).parent_eq newnode);
  })
  replaced (false, r) p = returns (record {
    linked = p.linked;
    decided = p.decided;
    refused = p.refused;
    gone = λ e. cc e;
    held = λ e. cc e;
  })

  -- On well-formed links of bounded height, and for two different nodes, cmark_node_replace leaves
  -- well-formed links. It reports success exactly if the old node is not null and its parent may
  -- hold the new one; then the old node is outside the tree and the new one is under the old one's
  -- parent. Without success nothing is changed.
  pub replace-Replaced : Returns (Replaced s oldnode newnode) (replace fuel s oldnode newnode)
  unfolding replace
  replace-Replaced = Returns-bind (insert_before-Placed w h oldnode newnode apart) replaced

-- On well-formed links of bounded height, a node that its parent may hold can be inserted before
-- itself: cmark_node_insert_before reports success, and the node is then its own successor and its
-- own predecessor.
pub insert_before_self :
    {s : Links} {fuel : ℕ} (w : IsLinked s) (h : HasHeight s fuel) (n : Ptr)
    → n ≢ null
    → Fits s (s.parent n) n
    → Returns (λ r. (r.0 ≡ true) × (r.1.next n ≡ n) × (r.1.prev n ≡ n)) (insert_before fuel s n n)
unfolding insert_before place_before
insert_before_self {s} {fuel} w h n some_n f =
    let given : (n == null || n == null) ≡ false = ground arith in
    let in_tree : (s.parent n == null) ≡ false = ground (arith, f.0) in
    rw (given, in_tree)
      (Returns-bind (can_contain-Decides (s.parent n) n h) (λ fits d. elim (Bool-cases fits) [
        | inl yes_fits ↦ rw yes_fits (returns (refl, ground arith, ground arith))
        | inr no_fits ↦ absurd (subst (λ b. Decides (Fits s (s.parent n) n) b) no_fits d f)
      ]))
