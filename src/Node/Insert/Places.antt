-- ===== src/Node/Insert/Places.antt =====
-- Each way of placing a node puts it into a gap of the links with that node unlinked.
use cmark.Prelude.{◌≡◌, ◌≢◌, refl, arith}
use cmark.Node.{Ptr, null, Links, s_unlink, unlink}
use cmark.Node.Unlink.{IsLinked, unlink-IsLinked, next-unlink, prev-unlink, parent-unlink}
use cmark.Node.Splice.{Gap, Spliced}
use cmark.Node.Insert.{place_before, place_after, place_first, place_last}

module _ {s : Links} (w : IsLinked s) (node n : Ptr) (some_node : node ≢ null) (some_n : n ≢ null)
    (apart : node ≢ n) where
  -- Nothing points at the unlinked node.
  prev-ne : (unlink s n).prev node ≢ n
  prev-ne =
      ground (arith, prev-unlink s n some_n node, w.prev_back node, w.next_back n, w.prev_back n)

  next-ne : (unlink s n).next node ≢ n
  next-ne =
      ground (arith, next-unlink s n some_n node, w.next_back node, w.next_back n, w.prev_back n)

  pub before-Spliced :
      (unlink s n).parent node ≢ null
      → Spliced
          (unlink s n)
          (place_before (s_unlink s n) node n)
          n
          ((unlink s n).parent node)
          ((unlink s n).prev node)
          node
  unfolding place_before unlink
  before-Spliced in_tree = record {
    next_eq = λ q. ground (arith, prev-ne);
    prev_eq = λ q. ground (arith, prev-ne);
    parent_eq = λ q. ground (arith, prev-ne);
    first_eq = λ q. ground (arith, prev-ne);
    last_eq = λ q. ground (arith, prev-ne);
  }

  pub after-Spliced :
      (unlink s n).parent node ≢ null
      → Spliced
          (unlink s n)
          (place_after (s_unlink s n) node n)
          n
          ((unlink s n).parent node)
          node
          ((unlink s n).next node)
  unfolding place_after unlink
  after-Spliced in_tree = record {
    next_eq = λ q. ground (arith, next-ne);
    prev_eq = λ q. ground (arith, next-ne);
    parent_eq = λ q. ground (arith, next-ne);
    first_eq = λ q. ground (arith, next-ne);
    last_eq = λ q. ground (arith, next-ne);
  }

  pub detached : (unlink s n).parent n ≡ null
  detached = ground (arith, parent-unlink s n some_n n)

  first-ne : (unlink s n).first_child node ≢ n
  first-ne = ground (arith, detached, (unlink-IsLinked w n some_n).first_parent node)

  last-ne : (unlink s n).last_child node ≢ n
  last-ne = ground (arith, detached, (unlink-IsLinked w n some_n).last_parent node)

  pub first-Spliced :
      Spliced
        (unlink s n)
        (place_first (s_unlink s n) node n)
        n
        node
        null
        ((unlink s n).first_child node)
  unfolding place_first unlink
  first-Spliced = record {
    next_eq = λ q. ground (arith, first-ne);
    prev_eq = λ q. ground (arith, first-ne);
    parent_eq = λ q. ground (arith, first-ne);
    first_eq = λ q. ground (arith, first-ne);
    last_eq = λ q. ground (arith, first-ne);
  }

  pub last-Spliced :
      Spliced
        (unlink s n)
        (place_last (s_unlink s n) node n)
        n
        node
        ((unlink s n).last_child node)
        null
  unfolding place_last unlink
  last-Spliced = record {
    next_eq = λ q. ground (arith, last-ne);
    prev_eq = λ q. ground (arith, last-ne);
    parent_eq = λ q. ground (arith, last-ne);
    first_eq = λ q. ground (arith, last-ne);
    last_eq = λ q. ground (arith, last-ne);
  }

-- The gaps, in any well-formed links.
module _ {t : Links} (w : IsLinked t) (node : Ptr) (some_node : node ≢ null) where
  pub before-Gap : t.parent node ≢ null → Gap t (t.parent node) (t.prev node) node
  before-Gap in_tree = record {
    some_m = in_tree;
    a_next = w.prev_back node some_node;
    a_parent = λ h. ground (arith, w.prev_back node, w.next_parent (t.prev node));
    b_prev = λ h. refl;
    b_parent = λ h. refl;
    at_start = w.is_first node some_node in_tree;
    at_end = λ e. absurd (some_node e);
  }

  pub after-Gap : t.parent node ≢ null → Gap t (t.parent node) node (t.next node)
  after-Gap in_tree = record {
    some_m = in_tree;
    a_next = λ h. refl;
    a_parent = λ h. refl;
    b_prev = w.next_back node some_node;
    b_parent = w.next_parent node some_node;
    at_start = λ e. absurd (some_node e);
    at_end = w.is_last node some_node in_tree;
  }

  pub first-Gap : Gap t node null (t.first_child node)
  first-Gap = record {
    some_m = some_node;
    a_next = λ h. absurd (h refl);
    a_parent = λ h. absurd (h refl);
    b_prev = w.first_prev node some_node;
    b_parent = w.first_parent node some_node;
    at_start = λ e. refl;
    at_end = w.none_first node some_node;
  }

  pub last-Gap : Gap t node (t.last_child node) null
  last-Gap = record {
    some_m = some_node;
    a_next = w.last_next node some_node;
    a_parent = w.last_parent node some_node;
    b_prev = λ h. absurd (h refl);
    b_parent = λ h. absurd (h refl);
    at_start = w.none_last node some_node;
    at_end = λ e. refl;
  }
