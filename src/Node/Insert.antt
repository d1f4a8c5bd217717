-- ===== src/Node/Insert.antt =====
-- node.c: `cmark_node_insert_before`, `_insert_after`, `_prepend_child`, `_append_child` and
-- `_replace`. Each returns whether it did something (1 or 0), and the links. `fuel` bounds the walk
-- of `S_can_contain` up to the root.
use cmark.Prelude.{ℕ, Bool, true, false, ◌||◌, ◌==◌, if◌then◌else◌, Run, ok, ◌>>=◌}
use cmark.Node.{
  Ptr, null, Links, set_next, set_prev, set_parent, set_first_child, set_last_child, can_contain,
  s_unlink, unlink,
}
pub mod Laws
pub mod Places

-- The part of `cmark_node_insert_before` behind the tests, on the links with `sibling` unlinked.
unfoldable pub place_before : Links → Ptr → Ptr → Links
place_before s node sibling =
    let old_prev = s.prev node in
    let s₁ = if old_prev == null then s else set_next s old_prev sibling in
    let s₂ = set_prev (set_next (set_prev s₁ sibling old_prev) sibling node) node sibling in
    let parent = s₂.parent node in
    let s₃ = set_parent s₂ sibling parent in
    if parent == null
    then s₃
    else if old_prev == null
    then set_first_child s₃ parent sibling
    else s₃

unfoldable pub place_after : Links → Ptr → Ptr → Links
place_after s node sibling =
    let old_next = s.next node in
    let s₁ = if old_next == null then s else set_prev s old_next sibling in
    let s₂ = set_next (set_prev (set_next s₁ sibling old_next) sibling node) node sibling in
    let parent = s₂.parent node in
    let s₃ = set_parent s₂ sibling parent in
    if parent == null then s₃ else if old_next == null then set_last_child s₃ parent sibling else s₃

unfoldable pub place_first : Links → Ptr → Ptr → Links
place_first s node child =
    let old_first_child = s.first_child node in
    let s₁ = set_parent (set_prev (set_next s child old_first_child) child null) child node in
    let s₂ = set_first_child s₁ node child in
    if old_first_child == null
    then set_last_child s₂ node child
    else set_prev s₂ old_first_child child

unfoldable pub place_last : Links → Ptr → Ptr → Links
place_last s node child =
    let old_last_child = s.last_child node in
    let s₁ = set_parent (set_prev (set_next s child null) child old_last_child) child node in
    let s₂ = set_last_child s₁ node child in
    if old_last_child == null
    then set_first_child s₂ node child
    else set_next s₂ old_last_child child

module _ (fuel : ℕ) where
  unfoldable pub insert_before : Links → Ptr → Ptr → Run (Bool × Links)
  insert_before s node sibling =
      if node == null || sibling == null
      then ok (false, s)
      else if s.parent node == null
      then ok (false, s)
      else can_contain fuel s (s.parent node) sibling >>= λ fits.
          if fits then ok (true, place_before (s_unlink s sibling) node sibling) else ok (false, s)

  unfoldable pub insert_after : Links → Ptr → Ptr → Run (Bool × Links)
  insert_after s node sibling =
      if node == null || sibling == null
      then ok (false, s)
      else if s.parent node == null
      then ok (false, s)
      else can_contain fuel s (s.parent node) sibling >>= λ fits.
          if fits then ok (true, place_after (s_unlink s sibling) node sibling) else ok (false, s)

  unfoldable pub replace : Links → Ptr → Ptr → Run (Bool × Links)
  replace s oldnode newnode = insert_before s oldnode newnode >>= λ r.
      if r.0 then ok (true, unlink r.1 oldnode) else ok (false, r.1)

  unfoldable pub prepend_child : Links → Ptr → Ptr → Run (Bool × Links)
  prepend_child s node child = can_contain fuel s node child >>= λ fits.
      if fits then ok (true, place_first (s_unlink s child) node child) else ok (false, s)

  unfoldable pub append_child : Links → Ptr → Ptr → Run (Bool × Links)
  append_child s node child = can_contain fuel s node child >>= λ fits.
      if fits then ok (true, place_last (s_unlink s child) node child) else ok (false, s)
