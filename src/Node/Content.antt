-- ===== src/Node/Content.antt =====
-- node.c: the fields of a node besides its links, and `cmark_node_new_with_mem`. A null pointer is
-- `none`. The union `as`, here `value`, is the member that was stored last; cleared memory reads as zeros by every
-- member, and another member that is read is a fault. A getter of a text turns the chunk into a C
-- string on the way, so it gives the node back.
use cmark.Prelude.{
  ℕ, Bool, true, false, ◌||◌, Option, none, some, Bytes, Run, ok, fault, ◌>>=◌, if◌then◌else◌, leb,
  ltb,
}
use cmark.Prelude.Int.{ℤ, pos, negsuc}
use cmark.Alloc.{Libc}
use cmark.Chunk.{Chunk, empty_chunk, to_cstr, set_cstr}
use cmark.Node.{
  NodeType, no_node, document, block_quote, list, item, code_block, html_block, custom_block,
  paragraph, heading, thematic_break, text, softbreak, linebreak, code, html_inline, custom_inline,
  emph, strong, link, image,
}
pub mod Accessors
pub mod RoundTrip

pub data ListType : Type 0 where
  no_list bullet_list ordered_list : ListType

pub data DelimType : Type 0 where
  no_delim period_delim paren_delim : DelimType

pub record ListData : Type 0 where
  pub list_type : ListType
  pub marker_offset : ℤ
  pub padding : ℤ
  pub start : ℤ
  pub delimiter : DelimType
  pub bullet_char : ℕ
  pub tight : Bool

pub record CodeData : Type 0 where
  pub info : Chunk
  pub literal : Chunk
  pub fence_length : ℕ
  pub fence_offset : ℕ
  pub fence_char : ℕ
  pub fenced : ℤ

pub record HeadingData : Type 0 where
  pub level : ℤ
  pub setext : Bool

pub record LinkData : Type 0 where
  pub url : Chunk
  pub title : Chunk

pub record CustomData : Type 0 where
  pub on_enter : Chunk
  pub on_exit : Chunk

pub data As : Type 0 where
  zeroed : As
  as_literal : Chunk → As
  as_list : ListData → As
  as_code : CodeData → As
  as_heading : HeadingData → As
  as_link : LinkData → As
  as_custom : CustomData → As
  as_html_block_type : ℤ → As

pub record Node : Type 0 where
  pub user_data : ℕ
  pub start_line : ℤ
  pub start_column : ℤ
  pub end_line : ℤ
  pub end_column : ℤ
  pub type : NodeType
  pub value : As

-- The members of the union, as they are read.
unfoldable pub literal_of : As → Run Chunk
literal_of zeroed = ok empty_chunk
literal_of (as_literal c) = ok c
literal_of _ = fault

unfoldable pub list_of : As → Run ListData
list_of zeroed = ok (record {
  list_type = no_list;
  marker_offset = pos 0;
  padding = pos 0;
  start = pos 0;
  delimiter = no_delim;
  bullet_char = 0;
  tight = false;
})
list_of (as_list d) = ok d
list_of _ = fault

unfoldable pub code_of : As → Run CodeData
code_of zeroed = ok (record {
  info = empty_chunk;
  literal = empty_chunk;
  fence_length = 0;
  fence_offset = 0;
  fence_char = 0;
  fenced = pos 0;
})
code_of (as_code d) = ok d
code_of _ = fault

unfoldable pub heading_of : As → Run HeadingData
heading_of zeroed = ok (record { level = pos 0; setext = false })
heading_of (as_heading d) = ok d
heading_of _ = fault

unfoldable pub link_of : As → Run LinkData
link_of zeroed = ok (record { url = empty_chunk; title = empty_chunk })
link_of (as_link d) = ok d
link_of _ = fault

unfoldable pub custom_of : As → Run CustomData
custom_of zeroed = ok (record { on_enter = empty_chunk; on_exit = empty_chunk })
custom_of (as_custom d) = ok d
custom_of _ = fault

-- The switch in `cmark_node_new_with_mem`, on the cleared node.
unfoldable pub initial_as : NodeType → As
initial_as heading = as_heading (record { level = pos 1; setext = false })
initial_as list = as_list (record {
  list_type = bullet_list;
  marker_offset = pos 0;
  padding = pos 0;
  start = pos 1;
  delimiter = no_delim;
  bullet_char = 0;
  tight = false;
})
initial_as _ = zeroed

unfoldable pub new_node : NodeType → Node
new_node t = record {
  user_data = 0;
  start_line = pos 0;
  start_column = pos 0;
  end_line = pos 0;
  end_column = pos 0;
  type = t;
  value = initial_as t;
}

-- The chunks that a node may hold.
pub data Slot : Type 0 where
  literal_slot code_info code_literal link_url link_title custom_enter custom_exit : Slot

unfoldable pub read_slot : Slot → As → Run Chunk
read_slot literal_slot a = literal_of a
read_slot code_info a = code_of a >>= λ d. ok d.info
read_slot code_literal a = code_of a >>= λ d. ok d.literal
read_slot link_url a = link_of a >>= λ d. ok d.url
read_slot link_title a = link_of a >>= λ d. ok d.title
read_slot custom_enter a = custom_of a >>= λ d. ok d.on_enter
read_slot custom_exit a = custom_of a >>= λ d. ok d.on_exit

unfoldable pub write_slot : Slot → As → Chunk → Run As
write_slot literal_slot a c = literal_of a >>= λ d. ok (as_literal c)
write_slot code_info a c = code_of a >>= λ d. ok (as_code (record d { info = c }))
write_slot code_literal a c = code_of a >>= λ d. ok (as_code (record d { literal = c }))
write_slot link_url a c = link_of a >>= λ d. ok (as_link (record d { url = c }))
write_slot link_title a c = link_of a >>= λ d. ok (as_link (record d { title = c }))
write_slot custom_enter a c = custom_of a >>= λ d. ok (as_custom (record d { on_enter = c }))
write_slot custom_exit a c = custom_of a >>= λ d. ok (as_custom (record d { on_exit = c }))
