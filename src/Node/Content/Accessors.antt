-- ===== src/Node/Content/Accessors.antt =====
-- node.c: the getters and setters of the fields of a node besides its links. A setter gives its
-- result, 1 or 0, as a truth value, and the node.
use cmark.Prelude.{
  ℕ, Bool, true, false, ◌||◌, ◌==◌, Option, none, some, Bytes, Run, ok, ◌>>=◌, if◌then◌else◌, ltb,
}
use cmark.Prelude.Int.{ℤ, pos, negsuc}
use cmark.Alloc.{Libc}
use cmark.Chunk.{to_cstr, set_cstr}
use cmark.Node.{
  NodeType, no_node, list, code_block, html_block, custom_block, heading, text, code, html_inline,
  custom_inline, link, image,
}
use cmark.Node.Content.{
  Node, as_list, as_heading, ListType, no_list, bullet_list, ordered_list, DelimType, no_delim,
  period_delim, paren_delim, Slot, literal_slot, code_info, code_literal, link_url, link_title,
  custom_enter, custom_exit, list_of, heading_of, read_slot, write_slot,
}

-- The slot that a type has for each text, by the cases of the switches.
unfoldable pub literal_case : NodeType → Option Slot
literal_case html_block = some literal_slot
literal_case text = some literal_slot
literal_case html_inline = some literal_slot
literal_case code = some literal_slot
literal_case code_block = some code_literal
literal_case _ = none

unfoldable pub info_case : NodeType → Option Slot
info_case code_block = some code_info
info_case _ = none

unfoldable pub url_case : NodeType → Option Slot
url_case link = some link_url
url_case image = some link_url
url_case _ = none

unfoldable pub title_case : NodeType → Option Slot
title_case link = some link_title
title_case image = some link_title
title_case _ = none

unfoldable pub enter_case : NodeType → Option Slot
enter_case custom_inline = some custom_enter
enter_case custom_block = some custom_enter
enter_case _ = none

unfoldable pub exit_case : NodeType → Option Slot
exit_case custom_inline = some custom_exit
exit_case custom_block = some custom_exit
exit_case _ = none

abbrev pub TextGetter : Type 0
TextGetter = Option Node → Run (Option Bytes × Option Node)

abbrev pub TextSetter : Type 0
TextSetter = Option Node → Option Bytes → Run (Bool × Option Node)

module _ ⦃libc : Libc⦄ where
  unfoldable pub get_slot : Option Slot → Node → Run (Option Bytes × Option Node)
  get_slot none node = ok (none, some node)
  get_slot (some slot) node = do
    c ← read_slot slot node.value
    r ← to_cstr c
    a ← write_slot slot node.value r.1
    ok (r.0, some (record node { value = a }))

  unfoldable pub set_slot : Option Slot → Node → Option Bytes → Run (Bool × Option Node)
  set_slot none node content = ok (false, some node)
  set_slot (some slot) node content = do
    c ← read_slot slot node.value
    c' ← set_cstr c content
    a ← write_slot slot node.value c'
    ok (true, some (record node { value = a }))

  unfoldable pub get_literal : TextGetter
  get_literal none = ok (none, none)
  get_literal (some node) = get_slot (literal_case node.type) node

  unfoldable pub set_literal : TextSetter
  set_literal none content = ok (false, none)
  set_literal (some node) content = set_slot (literal_case node.type) node content

  unfoldable pub get_fence_info : TextGetter
  get_fence_info none = ok (none, none)
  get_fence_info (some node) = get_slot (info_case node.type) node

  unfoldable pub set_fence_info : TextSetter
  set_fence_info none content = ok (false, none)
  set_fence_info (some node) content = set_slot (info_case node.type) node content

  unfoldable pub get_url : TextGetter
  get_url none = ok (none, none)
  get_url (some node) = get_slot (url_case node.type) node

  unfoldable pub set_url : TextSetter
  set_url none content = ok (false, none)
  set_url (some node) content = set_slot (url_case node.type) node content

  unfoldable pub get_title : TextGetter
  get_title none = ok (none, none)
  get_title (some node) = get_slot (title_case node.type) node

  unfoldable pub set_title : TextSetter
  set_title none content = ok (false, none)
  set_title (some node) content = set_slot (title_case node.type) node content

  unfoldable pub get_on_enter : TextGetter
  get_on_enter none = ok (none, none)
  get_on_enter (some node) = get_slot (enter_case node.type) node

  unfoldable pub set_on_enter : TextSetter
  set_on_enter none content = ok (false, none)
  set_on_enter (some node) content = set_slot (enter_case node.type) node content

  unfoldable pub get_on_exit : TextGetter
  get_on_exit none = ok (none, none)
  get_on_exit (some node) = get_slot (exit_case node.type) node

  unfoldable pub set_on_exit : TextSetter
  set_on_exit none content = ok (false, none)
  set_on_exit (some node) content = set_slot (exit_case node.type) node content

-- The tests on the type in front of the other fields.
unfoldable pub is_heading : NodeType → Bool
is_heading heading = true
is_heading _ = false

unfoldable pub is_list : NodeType → Bool
is_list list = true
is_list _ = false

-- `level < 1 || level > 6`
unfoldable pub bad_level : ℤ → Bool
bad_level (pos n) = n == 0 || ltb 6 n
bad_level (negsuc n) = true

unfoldable pub get_heading_level : Option Node → Run ℤ
get_heading_level none = ok (pos 0)
get_heading_level (some node) =
    if is_heading node.type then (heading_of node.value >>= λ h. ok h.level) else ok (pos 0)

unfoldable pub set_heading_level : Option Node → ℤ → Run (Bool × Option Node)
set_heading_level none level = ok (false, none)
set_heading_level (some node) level =
    if bad_level level
    then ok (false, some node)
    else if is_heading node.type
    then (heading_of node.value >>= λ h.
        ok (true, some (record node { value = as_heading (record h { level = level }) })))
    else ok (false, some node)

unfoldable pub get_list_type : Option Node → Run ListType
get_list_type none = ok no_list
get_list_type (some node) =
    if is_list node.type then (list_of node.value >>= λ l. ok l.list_type) else ok no_list

unfoldable pub get_list_delim : Option Node → Run DelimType
get_list_delim none = ok no_delim
get_list_delim (some node) =
    if is_list node.type then (list_of node.value >>= λ l. ok l.delimiter) else ok no_delim

unfoldable pub get_list_start : Option Node → Run ℤ
get_list_start none = ok (pos 0)
get_list_start (some node) =
    if is_list node.type then (list_of node.value >>= λ l. ok l.start) else ok (pos 0)

unfoldable pub get_list_tight : Option Node → Run Bool
get_list_tight none = ok false
get_list_tight (some node) =
    if is_list node.type then (list_of node.value >>= λ l. ok l.tight) else ok false

-- `!(type == CMARK_BULLET_LIST || type == CMARK_ORDERED_LIST)` and the like
unfoldable pub bad_list_type : ListType → Bool
bad_list_type no_list = true
bad_list_type bullet_list = false
bad_list_type ordered_list = false

unfoldable pub bad_delim : DelimType → Bool
bad_delim no_delim = true
bad_delim period_delim = false
bad_delim paren_delim = false

-- `start < 0`
unfoldable pub bad_start : ℤ → Bool
bad_start (pos n) = false
bad_start (negsuc n) = true

-- `tight == 1`
unfoldable pub is_one : ℤ → Bool
is_one (pos n) = n == 1
is_one (negsuc n) = false

unfoldable pub set_list_type : Option Node → ListType → Run (Bool × Option Node)
set_list_type none t = ok (false, none)
set_list_type (some node) t =
    if bad_list_type t
    then ok (false, some node)
    else if is_list node.type
    then (list_of node.value >>= λ l.
        ok (true, some (record node { value = as_list (record l { list_type = t }) })))
    else ok (false, some node)

unfoldable pub set_list_delim : Option Node → DelimType → Run (Bool × Option Node)
set_list_delim none delim = ok (false, none)
set_list_delim (some node) delim =
    if bad_delim delim
    then ok (false, some node)
    else if is_list node.type
    then (list_of node.value >>= λ l.
        ok (true, some (record node { value = as_list (record l { delimiter = delim }) })))
    else ok (false, some node)

unfoldable pub set_list_start : Option Node → ℤ → Run (Bool × Option Node)
set_list_start none start = ok (false, none)
set_list_start (some node) start =
    if bad_start start
    then ok (false, some node)
    else if is_list node.type
    then (list_of node.value >>= λ l.
        ok (true, some (record node { value = as_list (record l { start = start }) })))
    else ok (false, some node)

unfoldable pub set_list_tight : Option Node → ℤ → Run (Bool × Option Node)
set_list_tight none tight = ok (false, none)
set_list_tight (some node) tight =
    if is_list node.type
    then (list_of node.value >>= λ l.
        ok (true, some (record node { value = as_list (record l { tight = is_one tight }) })))
    else ok (false, some node)

unfoldable pub get_user_data : Option Node → ℕ
get_user_data none = 0
get_user_data (some node) = node.user_data

unfoldable pub set_user_data : Option Node → ℕ → Bool × Option Node
set_user_data none user_data = (false, none)
set_user_data (some node) user_data = (true, some (record node { user_data = user_data }))

unfoldable pub get_type : Option Node → NodeType
get_type none = no_node
get_type (some node) = node.type

unfoldable pub get_start_line : Option Node → ℤ
get_start_line none = pos 0
get_start_line (some node) = node.start_line

unfoldable pub get_start_column : Option Node → ℤ
get_start_column none = pos 0
get_start_column (some node) = node.start_column

unfoldable pub get_end_line : Option Node → ℤ
get_end_line none = pos 0
get_end_line (some node) = node.end_line

unfoldable pub get_end_column : Option Node → ℤ
get_end_column none = pos 0
get_end_column (some node) = node.end_column
