-- ===== src/Iterator.antt =====
-- iterator.c: walking over a tree. The iterator keeps the event it has reported and the next one; an
-- event is its kind and a node. Following the null pointer, and the failed `assert`, are faults.
use cmark.Prelude.{
  Option, none, some, ℕ, zero, suc, Bool, true, false, not, ◌&&◌, ◌==◌, Run, ok, fault, require,
  ◌>>=◌, ◌>>◌, if◌then◌else◌,
}
use cmark.Node.{
  Ptr, null, Links, NodeType, html_block, thematic_break, code_block, text, softbreak, linebreak,
  code, html_inline,
}
pub mod Walk

pub data EventType : Type 0 where
  event_none event_done enter exit : EventType

pub record State : Type 0 where
  pub ev_type : EventType
  pub node : Ptr

abbrev pub at : EventType → Ptr → State
at e p = record { ev_type = e; node = p }

pub record Iter : Type 0 where
  pub root : Ptr
  pub cur : State
  pub next : State

-- `S_leaf_mask`
unfoldable pub is_leaf : NodeType → Bool
is_leaf html_block = true
is_leaf thematic_break = true
is_leaf code_block = true
is_leaf text = true
is_leaf softbreak = true
is_leaf linebreak = true
is_leaf code = true
is_leaf html_inline = true
is_leaf _ = false

-- The fields that `cmark_iter_new` sets.
unfoldable pub fresh : Ptr → Iter
fresh root = record { root = root; cur = at event_none null; next = at enter root }

-- `cmark_iter_new`, where the allocation succeeds; without a root there is no iterator.
unfoldable pub iter_new : Ptr → Option Iter
iter_new root = if root == null then none else some (fresh root)

-- The branches of `cmark_iter_next` that leave a node.
unfoldable pub leave : Links → Ptr → Ptr → Run State
leave s root node =
    if node == root
    then ok (at event_done null)
    else if not (s.next node == null)
    then ok (at enter (s.next node))
    else if not (s.parent node == null)
    then ok (at exit (s.parent node))
    else fault

-- The state that `cmark_iter_next` rolls forward to.
unfoldable pub forward_from : Links → Ptr → EventType → Ptr → Run State
forward_from s root event_done node = ok (at event_done node)
forward_from s root enter node =
    require (not (node == null))
    >> (if not (is_leaf (s.type node))
        then (if s.first_child node == null
            then ok (at exit node)
            else ok (at enter (s.first_child node)))
        else leave s root node)
forward_from s root exit node = require (not (node == null)) >> leave s root node
forward_from s root event_none node = require (not (node == null)) >> leave s root node

unfoldable pub forward : Links → Ptr → State → Run State
unfolding forward_from
forward s root next = forward_from s root next.ev_type next.node

unfoldable pub iter_next : Links → Iter → Run (EventType × Iter)
iter_next s iter = forward s iter.root iter.next >>= λ next.
    ok (iter.next.ev_type, record iter { cur = iter.next; next = next })

unfoldable pub iter_reset : Links → Iter → Ptr → EventType → Run Iter
iter_reset s iter current event_type =
    iter_next s (record iter { next = at event_type current }) >>= λ r. ok r.1

unfoldable pub get_node : Iter → Ptr
get_node iter = iter.cur.node

unfoldable pub get_event_type : Iter → EventType
get_event_type iter = iter.cur.ev_type

unfoldable pub get_root : Iter → Ptr
get_root iter = iter.root
