-- ===== src/Node/Unlink.antt =====
-- Well-formed links, and `cmark_node_unlink`.
use cmark.Prelude.{◌≡◌, ◌≢◌, not, ◌&&◌, ◌==◌, if◌then◌else◌, arith}
use cmark.Node.{
  Ptr, null, Links, unlink, s_unlink, unlink_prev, unlink_next, unlink_first, unlink_last,
  unlink_parent,
}

-- The links agree: neighbours point at each other and share their parent, and a parent points at the
-- first and the last of its children. Outside the null pointer, every node is so.
pub record IsLinked (s : Links) : Type 0 where
  pub next_back : (p : Ptr) → p ≢ null → s.next p ≢ null → s.prev (s.next p) ≡ p
  pub next_parent : (p : Ptr) → p ≢ null → s.next p ≢ null → s.parent (s.next p) ≡ s.parent p
  pub prev_back : (p : Ptr) → p ≢ null → s.prev p ≢ null → s.next (s.prev p) ≡ p
  pub first_prev : (p : Ptr) → p ≢ null → s.first_child p ≢ null → s.prev (s.first_child p) ≡ null
  pub first_parent : (p : Ptr) → p ≢ null → s.first_child p ≢ null → s.parent (s.first_child p) ≡ p
  pub last_next : (p : Ptr) → p ≢ null → s.last_child p ≢ null → s.next (s.last_child p) ≡ null
  pub last_parent : (p : Ptr) → p ≢ null → s.last_child p ≢ null → s.parent (s.last_child p) ≡ p
  pub is_first :
      (p : Ptr) → p ≢ null → s.parent p ≢ null → s.prev p ≡ null → s.first_child (s.parent p) ≡ p
  pub is_last :
      (p : Ptr) → p ≢ null → s.parent p ≢ null → s.next p ≡ null → s.last_child (s.parent p) ≡ p
  pub none_first : (p : Ptr) → p ≢ null → s.first_child p ≡ null → s.last_child p ≡ null
  pub none_last : (p : Ptr) → p ≢ null → s.last_child p ≡ null → s.first_child p ≡ null
  pub root_next : (p : Ptr) → p ≢ null → s.parent p ≡ null → s.next p ≡ null
  pub root_prev : (p : Ptr) → p ≢ null → s.parent p ≡ null → s.prev p ≡ null

-- The fields behind an unlinking, in closed form.
module _ (s : Links) (n : Ptr) (some_n : n ≢ null) (q : Ptr) where
  pub next-unlink : (unlink s n).next q ≡ (
      if q == n
      then null
      else if q == s.prev n && not (s.prev n == null)
      then s.next n
      else s.next q)
  unfolding unlink s_unlink unlink_prev unlink_next unlink_first unlink_last unlink_parent
  next-unlink = ground arith

  pub prev-unlink : (unlink s n).prev q ≡ (
      if q == n
      then null
      else if q == s.next n && not (s.next n == null)
      then s.prev n
      else s.prev q)
  unfolding unlink s_unlink unlink_prev unlink_next unlink_first unlink_last unlink_parent
  prev-unlink = ground arith

  pub parent-unlink : (unlink s n).parent q ≡ (if q == n then null else s.parent q)
  unfolding unlink s_unlink unlink_prev unlink_next unlink_first unlink_last unlink_parent
  parent-unlink = ground arith

  pub first-unlink : (unlink s n).first_child q ≡ (
      if q == s.parent n && not (s.parent n == null) && s.first_child q == n
      then s.next n
      else s.first_child q)
  unfolding unlink s_unlink unlink_prev unlink_next unlink_first unlink_last unlink_parent
  first-unlink = ground arith

  pub last-unlink : (unlink s n).last_child q ≡ (
      if q == s.parent n && not (s.parent n == null) && s.last_child q == n
      then s.prev n
      else s.last_child q)
  unfolding unlink s_unlink unlink_prev unlink_next unlink_first unlink_last unlink_parent
  last-unlink = ground arith

module _ {s : Links} (w : IsLinked s) (n : Ptr) (some_n : n ≢ null) where
  unlink-next_back :
      (p : Ptr)
      → p ≢ null
      → (unlink s n).next p ≢ null
      → (unlink s n).prev ((unlink s n).next p) ≡ p
  unlink-next_back p some_p h = ground (
    arith,
    next-unlink s n some_n p,
    prev-unlink s n some_n ((unlink s n).next p),
    w.next_back p,
    w.next_back n,
    w.prev_back n,
    w.prev_back p,
  )

  unlink-next_parent :
      (p : Ptr)
      → p ≢ null
      → (unlink s n).next p ≢ null
      → (unlink s n).parent ((unlink s n).next p) ≡ (unlink s n).parent p
  unlink-next_parent p some_p h = ground (
    arith,
    next-unlink s n some_n p,
    parent-unlink s n some_n ((unlink s n).next p),
    parent-unlink s n some_n p,
    w.next_back p,
    w.next_back n,
    w.prev_back n,
    w.prev_back p,
    w.next_parent p,
    w.next_parent n,
  )

  unlink-prev_back :
      (p : Ptr)
      → p ≢ null
      → (unlink s n).prev p ≢ null
      → (unlink s n).next ((unlink s n).prev p) ≡ p
  unlink-prev_back p some_p h = ground (
    arith,
    prev-unlink s n some_n p,
    next-unlink s n some_n ((unlink s n).prev p),
    w.next_back p,
    w.next_back n,
    w.prev_back n,
    w.prev_back p,
  )

  unlink-first_prev :
      (p : Ptr)
      → p ≢ null
      → (unlink s n).first_child p ≢ null
      → (unlink s n).prev ((unlink s n).first_child p) ≡ null
  unlink-first_prev p some_p h = ground (
    arith,
    first-unlink s n some_n p,
    prev-unlink s n some_n ((unlink s n).first_child p),
    w.first_prev p,
    w.first_parent p,
    w.next_back n,
    w.first_prev (s.parent n),
  )

  unlink-first_parent :
      (p : Ptr)
      → p ≢ null
      → (unlink s n).first_child p ≢ null
      → (unlink s n).parent ((unlink s n).first_child p) ≡ p
  unlink-first_parent p some_p h = ground (
    arith,
    first-unlink s n some_n p,
    parent-unlink s n some_n ((unlink s n).first_child p),
    w.first_prev p,
    w.first_parent p,
    w.next_back n,
    w.next_parent n,
    w.first_parent (s.parent n),
  )

  unlink-last_next :
      (p : Ptr)
      → p ≢ null
      → (unlink s n).last_child p ≢ null
      → (unlink s n).next ((unlink s n).last_child p) ≡ null
  unlink-last_next p some_p h = ground (
    arith,
    last-unlink s n some_n p,
    next-unlink s n some_n ((unlink s n).last_child p),
    w.last_next p,
    w.last_parent p,
    w.prev_back n,
    w.last_next (s.parent n),
  )

  unlink-last_parent :
      (p : Ptr)
      → p ≢ null
      → (unlink s n).last_child p ≢ null
      → (unlink s n).parent ((unlink s n).last_child p) ≡ p
  unlink-last_parent p some_p h = ground (
    arith,
    last-unlink s n some_n p,
    parent-unlink s n some_n ((unlink s n).last_child p),
    w.last_next p,
    w.last_parent p,
    w.prev_back n,
    w.next_parent (s.prev n),
    w.last_parent (s.parent n),
  )

  unlink-is_first :
      (p : Ptr)
      → p ≢ null
      → (unlink s n).parent p ≢ null
      → (unlink s n).prev p ≡ null
      → (unlink s n).first_child ((unlink s n).parent p) ≡ p
  unlink-is_first p some_p h e = ground (
    arith,
    first-unlink s n some_n ((unlink s n).parent p),
    parent-unlink s n some_n p,
    prev-unlink s n some_n p,
    w.is_first p,
    w.is_first n,
    w.next_back n,
    w.next_parent n,
  )

  unlink-is_last :
      (p : Ptr)
      → p ≢ null
      → (unlink s n).parent p ≢ null
      → (unlink s n).next p ≡ null
      → (unlink s n).last_child ((unlink s n).parent p) ≡ p
  unlink-is_last p some_p h e = ground (
    arith,
    last-unlink s n some_n ((unlink s n).parent p),
    parent-unlink s n some_n p,
    next-unlink s n some_n p,
    w.is_last p,
    w.is_last n,
    w.prev_back n,
    w.next_parent (s.prev n),
  )

  unlink-root_next :
      (p : Ptr) → p ≢ null → (unlink s n).parent p ≡ null → (unlink s n).next p ≡ null
  unlink-root_next p some_p h = ground (
    arith,
    parent-unlink s n some_n p,
    next-unlink s n some_n p,
    w.root_next p,
    w.prev_back n,
    w.next_parent p,
  )

  unlink-root_prev :
      (p : Ptr) → p ≢ null → (unlink s n).parent p ≡ null → (unlink s n).prev p ≡ null
  unlink-root_prev p some_p h = ground (
    arith,
    parent-unlink s n some_n p,
    prev-unlink s n some_n p,
    w.root_prev p,
    w.next_back n,
    w.next_parent n,
    w.root_next p,
  )

  unlink-none_first :
      (p : Ptr) → p ≢ null → (unlink s n).first_child p ≡ null → (unlink s n).last_child p ≡ null
  unlink-none_first p some_p h = ground (
    arith,
    first-unlink s n some_n p,
    last-unlink s n some_n p,
    w.none_first p,
    w.first_prev p,
    w.is_last n,
  )

  unlink-none_last :
      (p : Ptr) → p ≢ null → (unlink s n).last_child p ≡ null → (unlink s n).first_child p ≡ null
  unlink-none_last p some_p h = ground (
    arith,
    first-unlink s n some_n p,
    last-unlink s n some_n p,
    w.none_last p,
    w.last_next p,
    w.is_first n,
  )

  -- Unlinking a node that is not null keeps the links well formed: neighbours point at each other
  -- and share their parent, a parent points at the first and the last of its children, and a root
  -- has no neighbours.
  pub unlink-IsLinked : IsLinked (unlink s n)
  unlink-IsLinked = record {
    next_back = unlink-next_back;
    next_parent = unlink-next_parent;
    prev_back = unlink-prev_back;
    first_prev = unlink-first_prev;
    first_parent = unlink-first_parent;
    last_next = unlink-last_next;
    last_parent = unlink-last_parent;
    is_first = unlink-is_first;
    is_last = unlink-is_last;
    none_first = unlink-none_first;
    none_last = unlink-none_last;
    root_next = unlink-root_next;
    root_prev = unlink-root_prev;
  }
