-- ===== src/Node.antt =====
-- node.c, the tree: a store of nodes linked by pointers, and the operations that relink them. The
-- store has one map from addresses for each field of `struct cmark_node`, so that a write to a field
-- of one node leaves every other field and node alone; 0 is the null pointer.
use cmark.Prelude.{
  ℕ, zero, suc, ◌+◌, Bool, true, false, not, ◌&&◌, ◌||◌, ◌==◌, leb, if◌then◌else◌, Run, ok,
  out_of_fuel, ◌>>=◌,
}
pub mod Unlink
pub mod Splice
pub mod Ancestors
pub mod Insert
pub mod Content

pub data NodeType : Type 0 where
  no_node document block_quote list item code_block html_block custom_block : NodeType
  paragraph heading thematic_break : NodeType
  text softbreak linebreak code html_inline custom_inline emph strong link image : NodeType

-- The values of `cmark_node_type`.
unfoldable pub type_code : NodeType → ℕ
type_code no_node = 0
type_code document = 1
type_code block_quote = 2
type_code list = 3
type_code item = 4
type_code code_block = 5
type_code html_block = 6
type_code custom_block = 7
type_code paragraph = 8
type_code heading = 9
type_code thematic_break = 10
type_code text = 11
type_code softbreak = 12
type_code linebreak = 13
type_code code = 14
type_code html_inline = 15
type_code custom_inline = 16
type_code emph = 17
type_code strong = 18
type_code link = 19
type_code image = 20

abbrev pub Ptr : Type 0
Ptr = ℕ

abbrev pub null : Ptr
null = 0

pub record Links : Type 0 where
  pub next : Ptr → Ptr
  pub prev : Ptr → Ptr
  pub parent : Ptr → Ptr
  pub first_child : Ptr → Ptr
  pub last_child : Ptr → Ptr
  pub type : Ptr → NodeType

-- A field after a write at `p`.
abbrev pub update : (Ptr → Ptr) → Ptr → Ptr → Ptr → Ptr
update f p v q = if q == p then v else f q

-- `p->next = v`, and so for the other fields
abbrev pub set_next : Links → Ptr → Ptr → Links
set_next s p v = record s { next = update s.next p v }

abbrev pub set_prev : Links → Ptr → Ptr → Links
set_prev s p v = record s { prev = update s.prev p v }

abbrev pub set_parent : Links → Ptr → Ptr → Links
set_parent s p v = record s { parent = update s.parent p v }

abbrev pub set_first_child : Links → Ptr → Ptr → Links
set_first_child s p v = record s { first_child = update s.first_child p v }

abbrev pub set_last_child : Links → Ptr → Ptr → Links
set_last_child s p v = record s { last_child = update s.last_child p v }

unfoldable pub is_block : Links → Ptr → Bool
is_block s node =
    if node == null
    then false
    else leb (type_code document) (type_code (s.type node))
      && leb (type_code (s.type node)) (type_code thematic_break)

unfoldable pub is_inline : Links → Ptr → Bool
is_inline s node =
    if node == null
    then false
    else leb (type_code text) (type_code (s.type node))
      && leb (type_code (s.type node)) (type_code image)

-- The switch in `S_can_contain`.
unfoldable pub accepts : NodeType → Links → Ptr → Bool
accepts document s child = is_block s child && not (type_code (s.type child) == type_code item)
accepts block_quote s child = is_block s child && not (type_code (s.type child) == type_code item)
accepts item s child = is_block s child && not (type_code (s.type child) == type_code item)
accepts list s child = type_code (s.type child) == type_code item
accepts custom_block s child = true
accepts paragraph s child = is_inline s child
accepts heading s child = is_inline s child
accepts emph s child = is_inline s child
accepts strong s child = is_inline s child
accepts link s child = is_inline s child
accepts image s child = is_inline s child
accepts custom_inline s child = is_inline s child
accepts _ s child = false

-- Whether the walk from `cur` up to the root meets `child`. Each round goes up one level.
unfoldable pub meets : ℕ → Links → Ptr → Ptr → Run Bool
meets zero s cur child = out_of_fuel
meets (suc fuel) s cur child =
    let above = meets fuel s (s.parent cur) child in
    if cur == child then ok true else if s.parent cur == null then ok false else above

-- The tests on the types, behind the walk.
unfoldable pub may_hold : Links → Ptr → Ptr → Bool
may_hold s node child =
    if type_code (s.type child) == type_code document then false else accepts (s.type node) s child

-- `fuel` bounds the walk; a tree of height below it is enough.
unfoldable pub can_contain : ℕ → Links → Ptr → Ptr → Run Bool
can_contain fuel s node child =
    if node == null || child == null
    then ok false
    else meets fuel s node child >>= λ met. ok (if met then false else may_hold s node child)

-- `S_node_unlink`: the neighbours and the parent of `node` are linked past it.
unfoldable pub unlink_prev : Links → Ptr → Links
unlink_prev s node = if s.prev node == null then s else set_next s (s.prev node) (s.next node)

unfoldable pub unlink_next : Links → Ptr → Links
unlink_next s node = if s.next node == null then s else set_prev s (s.next node) (s.prev node)

unfoldable pub unlink_first : Links → Ptr → Ptr → Links
unlink_first s node parent =
    if s.first_child parent == node then set_first_child s parent (s.next node) else s

unfoldable pub unlink_last : Links → Ptr → Ptr → Links
unlink_last s node parent =
    if s.last_child parent == node then set_last_child s parent (s.prev node) else s

unfoldable pub unlink_parent : Links → Ptr → Links
unlink_parent s node =
    let parent = s.parent node in
    if parent == null then s else unlink_last (unlink_first s node parent) node parent

unfoldable pub s_unlink : Links → Ptr → Links
s_unlink s node =
    if node == null then s else unlink_parent (unlink_next (unlink_prev s node) node) node

-- `cmark_node_unlink`
unfoldable pub unlink : Links → Ptr → Links
unlink s node = set_parent (set_prev (set_next (s_unlink s node) node null) node null) node null

-- The getters of the links.
unfoldable pub node_next : Links → Ptr → Ptr
node_next s node = if node == null then null else s.next node

unfoldable pub node_previous : Links → Ptr → Ptr
node_previous s node = if node == null then null else s.prev node

unfoldable pub node_parent : Links → Ptr → Ptr
node_parent s node = if node == null then null else s.parent node

unfoldable pub node_first_child : Links → Ptr → Ptr
node_first_child s node = if node == null then null else s.first_child node

unfoldable pub node_last_child : Links → Ptr → Ptr
node_last_child s node = if node == null then null else s.last_child node
