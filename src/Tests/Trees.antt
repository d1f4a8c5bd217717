-- ===== src/Tests/Trees.antt =====
-- The relinking operations on a concrete tree.
use cmark.Prelude.{◌≡◌, ◌≢◌, refl, true, Returns}
use cmark.Node.{null, can_contain, may_hold, type_code, accepts, is_block, unlink}
use cmark.Node.Unlink.{IsLinked, unlink-IsLinked}
use cmark.Node.Ancestors.{IsAbove, up, Decides, can_contain-Decides}
use cmark.Node.Insert.{insert_before, insert_after, replace, prepend_child, append_child}
use cmark.Node.Insert.Laws.{
  Fits, Placed, Replaced, prepend_child-Placed, append_child-Placed, insert_before-Placed,
  insert_after-Placed, replace-Replaced, insert_before_self,
}
use cmark.Tests.{tree_example, tree_example-IsLinked, tree_example-HasHeight}

unlink-IsLinked_example : IsLinked (unlink tree_example 2)
unlink-IsLinked_example = unlink-IsLinked tree_example-IsLinked 2 (λ e. cc e)

can_contain-Decides_example :
    Returns
      (λ b.
        Decides
          ((1 ≢ null)
            × (4 ≢ null)
            × (¬ IsAbove tree_example 4 1)
            × (may_hold tree_example 1 4 ≡ true))
          b)
      (can_contain 2 tree_example 1 4)
can_contain-Decides_example = can_contain-Decides 1 4 tree_example-HasHeight

prepend_child-Placed_example :
    Returns
      (Placed (Fits tree_example 1 4) tree_example 4 1 null ((unlink tree_example 4).first_child 1))
      (prepend_child 2 tree_example 1 4)
prepend_child-Placed_example = prepend_child-Placed tree_example-IsLinked tree_example-HasHeight 1 4

append_child-Placed_example :
    Returns
      (Placed (Fits tree_example 1 4) tree_example 4 1 ((unlink tree_example 4).last_child 1) null)
      (append_child 2 tree_example 1 4)
append_child-Placed_example = append_child-Placed tree_example-IsLinked tree_example-HasHeight 1 4

insert_before-Placed_example :
    Returns
      (Placed
        ((3 ≢ null) × Fits tree_example (tree_example.parent 3) 4)
        tree_example
        4
        (tree_example.parent 3)
        ((unlink tree_example 4).prev 3)
        3)
      (insert_before 2 tree_example 3 4)
insert_before-Placed_example =
    insert_before-Placed tree_example-IsLinked tree_example-HasHeight 3 4 (λ e. cc e)

insert_after-Placed_example :
    Returns
      (Placed
        ((2 ≢ null) × Fits tree_example (tree_example.parent 2) 4)
        tree_example
        4
        (tree_example.parent 2)
        2
        ((unlink tree_example 4).next 2))
      (insert_after 2 tree_example 2 4)
insert_after-Placed_example =
    insert_after-Placed tree_example-IsLinked tree_example-HasHeight 2 4 (λ e. cc e)

replace-Replaced_example : Returns (Replaced tree_example 2 4) (replace 2 tree_example 2 4)
replace-Replaced_example =
    replace-Replaced tree_example-IsLinked tree_example-HasHeight 2 4 (λ e. cc e)

-- The node 2 is neither the document nor above it.
not-IsAbove : ¬ IsAbove tree_example 2 1
not-IsAbove (up h above) = h refl

self-Fits : Fits tree_example (tree_example.parent 2) 2
unfolding may_hold type_code accepts is_block
self-Fits = (λ e. cc e, λ e. cc e, not-IsAbove, refl)

insert_before_self_example :
    Returns
      (λ r. (r.0 ≡ true) × (r.1.next 2 ≡ 2) × (r.1.prev 2 ≡ 2))
      (insert_before 2 tree_example 2 2)
insert_before_self_example =
    insert_before_self tree_example-IsLinked tree_example-HasHeight 2 (λ e. cc e) self-Fits
