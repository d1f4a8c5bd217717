-- ===== src/Node/Splice.antt =====
-- Putting a detached node between two neighbours.
use cmark.Prelude.{◌≡◌, ◌≢◌, not, ◌&&◌, ◌==◌, if◌then◌else◌, arith}
use cmark.Node.{Ptr, null, Links}
use cmark.Node.Unlink.{IsLinked}

-- `a` and `b` are neighbours among the children of `m`; null stands for no neighbour.
pub record Gap (t : Links) (m a b : Ptr) : Type 0 where
  pub some_m : m ≢ null
  pub a_next : a ≢ null → t.next a ≡ b
  pub a_parent : a ≢ null → t.parent a ≡ m
  pub b_prev : b ≢ null → t.prev b ≡ a
  pub b_parent : b ≢ null → t.parent b ≡ m
  pub at_start : a ≡ null → t.first_child m ≡ b
  pub at_end : b ≡ null → t.last_child m ≡ a

-- `r` is `t` with `n` put between `a` and `b`.
pub record Spliced (t r : Links) (n m a b : Ptr) : Type 0 where
  pub next_eq :
      (q : Ptr)
      → r.next q ≡ (if q == n then b else if q == a && not (a == null) then n else t.next q)
  pub prev_eq :
      (q : Ptr)
      → r.prev q ≡ (if q == n then a else if q == b && not (b == null) then n else t.prev q)
  pub parent_eq : (q : Ptr) → r.parent q ≡ (if q == n then m else t.parent q)
  pub first_eq : (q : Ptr) → r.first_child q ≡ (if q == m && a == null then n else t.first_child q)
  pub last_eq : (q : Ptr) → r.last_child q ≡ (if q == m && b == null then n else t.last_child q)

module _ {t r : Links} {n m a b : Ptr} (w : IsLinked t) (some_n : n ≢ null)
    (alone : t.parent n ≡ null) (g : Gap t m a b) (z : Spliced t r n m a b) where
  no_next : t.next n ≡ null
  no_next = w.root_next n some_n alone

  no_prev : t.prev n ≡ null
  no_prev = w.root_prev n some_n alone

  splice-next_back : (p : Ptr) → p ≢ null → r.next p ≢ null → r.prev (r.next p) ≡ p
  splice-next_back p some_p h = ground (
    arith,
    z.next_eq p,
    z.prev_eq (r.next p),
    w.next_back p,
    no_prev,
    g.a_next,
    g.b_prev,
    g.a_parent,
    g.b_parent,
  )

  splice-next_parent : (p : Ptr) → p ≢ null → r.next p ≢ null → r.parent (r.next p) ≡ r.parent p
  splice-next_parent p some_p h = ground (
    arith,
    z.next_eq p,
    z.parent_eq (r.next p),
    z.parent_eq p,
    w.next_back p,
    w.next_parent p,
    no_prev,
    g.a_next,
    g.b_prev,
    g.a_parent,
    g.b_parent,
  )

  splice-prev_back : (p : Ptr) → p ≢ null → r.prev p ≢ null → r.next (r.prev p) ≡ p
  splice-prev_back p some_p h = ground (
    arith,
    z.prev_eq p,
    z.next_eq (r.prev p),
    w.prev_back p,
    no_next,
    g.a_next,
    g.b_prev,
    g.a_parent,
    g.b_parent,
  )

  splice-first_prev :
      (p : Ptr) → p ≢ null → r.first_child p ≢ null → r.prev (r.first_child p) ≡ null
  splice-first_prev p some_p h = ground (
    arith,
    z.first_eq p,
    z.prev_eq (r.first_child p),
    w.first_prev p,
    w.first_parent p,
    g.b_prev,
    g.b_parent,
    g.at_start,
  )

  splice-first_parent :
      (p : Ptr) → p ≢ null → r.first_child p ≢ null → r.parent (r.first_child p) ≡ p
  splice-first_parent p some_p h =
      ground (arith, z.first_eq p, z.parent_eq (r.first_child p), w.first_parent p)

  splice-last_next : (p : Ptr) → p ≢ null → r.last_child p ≢ null → r.next (r.last_child p) ≡ null
  splice-last_next p some_p h = ground (
    arith,
    z.last_eq p,
    z.next_eq (r.last_child p),
    w.last_next p,
    w.last_parent p,
    g.a_next,
    g.a_parent,
    g.at_end,
  )

  splice-last_parent : (p : Ptr) → p ≢ null → r.last_child p ≢ null → r.parent (r.last_child p) ≡ p
  splice-last_parent p some_p h =
      ground (arith, z.last_eq p, z.parent_eq (r.last_child p), w.last_parent p)

  splice-is_first :
      (p : Ptr) → p ≢ null → r.parent p ≢ null → r.prev p ≡ null → r.first_child (r.parent p) ≡ p
  splice-is_first p some_p h e = ground (
    arith,
    z.first_eq (r.parent p),
    z.parent_eq p,
    z.prev_eq p,
    w.is_first p,
    g.at_start,
    g.b_prev,
  )

  splice-is_last :
      (p : Ptr) → p ≢ null → r.parent p ≢ null → r.next p ≡ null → r.last_child (r.parent p) ≡ p
  splice-is_last p some_p h e =
      ground
        (arith, z.last_eq (r.parent p), z.parent_eq p, z.next_eq p, w.is_last p, g.at_end, g.a_next)

  splice-none_first : (p : Ptr) → p ≢ null → r.first_child p ≡ null → r.last_child p ≡ null
  splice-none_first p some_p h = ground (
    arith,
    z.first_eq p,
    z.last_eq p,
    w.none_first p,
    w.none_last p,
    g.at_start,
    g.at_end,
    g.a_next,
    g.b_prev,
  )

  splice-none_last : (p : Ptr) → p ≢ null → r.last_child p ≡ null → r.first_child p ≡ null
  splice-none_last p some_p h = ground (
    arith,
    z.first_eq p,
    z.last_eq p,
    w.none_first p,
    w.none_last p,
    g.at_start,
    g.at_end,
    g.a_next,
    g.b_prev,
  )

  splice-root_next : (p : Ptr) → p ≢ null → r.parent p ≡ null → r.next p ≡ null
  splice-root_next p some_p h =
      ground (arith, z.parent_eq p, z.next_eq p, w.root_next p, g.a_parent, g.some_m)

  splice-root_prev : (p : Ptr) → p ≢ null → r.parent p ≡ null → r.prev p ≡ null
  splice-root_prev p some_p h =
      ground (arith, z.parent_eq p, z.prev_eq p, w.root_prev p, g.b_parent, g.some_m)

  -- The links stay well formed.
  pub splice-IsLinked : IsLinked r
  splice-IsLinked = record {
    next_back = splice-next_back;
    next_parent = splice-next_parent;
    prev_back = splice-prev_back;
    first_prev = splice-first_prev;
    first_parent = splice-first_parent;
    last_next = splice-last_next;
    last_parent = splice-last_parent;
    is_first = splice-is_first;
    is_last = splice-is_last;
    none_first = splice-none_first;
    none_last = splice-none_last;
    root_next = splice-root_next;
    root_prev = splice-root_prev;
  }
