-- ===== src/Xml.antt =====
-- xml.c: the renderer of XML. The state is the indentation. The options are the bits of an int.
use cmark.Prelude.{
  ℕ, zero, suc, ◌+◌, ◌-◌, Bool, true, false, not, ◌&&◌, some, List, [], ◌∷◌, ◌++◌, ◌==◌, leb,
  if◌then◌else◌, Bytes, codes, decimal, Run, ok, require, ◌>>=◌, ◌>>◌,
}
use cmark.Prelude.Int.{ℤ, pos, negsuc}
use cmark.Alloc.{Libc}
use cmark.Buffer.{Strbuf, empty, puts}
use cmark.Chunk.{Chunk}
use cmark.Node.{
  Ptr, null, NodeType, no_node, document, block_quote, list, item, code_block, html_block,
  custom_block, paragraph, heading, thematic_break, text, softbreak, linebreak, code, html_inline,
  custom_inline, emph, strong, link, image,
}
use cmark.Node.Content.{
  Node, ListType, bullet_list, no_list, ordered_list, DelimType, no_delim, period_delim,
  paren_delim, code_of, heading_of, literal_of, link_of, custom_of,
}
use cmark.Node.Content.Accessors.{get_list_type, get_list_start, get_list_delim, get_list_tight}
use cmark.Iterator.{EventType, iter_new}
use cmark.Html.{has_option, opt_sourcepos, position, say}
use cmark.Render.{
  Document, tree_of, Call, put_char, put_string, put_html, is_enter, perform_all, render_events,
}
pub mod Nested
pub mod Whole

-- `cmark_node_get_type_string` of node.c, of a node.
unfoldable pub type_string : NodeType → Bytes
type_string no_node = codes "none"
type_string document = codes "document"
type_string block_quote = codes "block_quote"
type_string list = codes "list"
type_string item = codes "item"
type_string code_block = codes "code_block"
type_string html_block = codes "html_block"
type_string custom_block = codes "custom_block"
type_string paragraph = codes "paragraph"
type_string heading = codes "heading"
type_string thematic_break = codes "thematic_break"
type_string text = codes "text"
type_string softbreak = codes "softbreak"
type_string linebreak = codes "linebreak"
type_string code = codes "code"
type_string html_inline = codes "html_inline"
type_string custom_inline = codes "custom_inline"
type_string emph = codes "emph"
type_string strong = codes "strong"
type_string link = codes "link"
type_string image = codes "image"

unfoldable pub indent_calls : ℕ → List Call
indent_calls zero = []
indent_calls (suc n) = put_char 32 ∷ indent_calls n

unfoldable pub is_zero : ℤ → Bool
is_zero (pos n) = n == 0
is_zero (negsuc n) = false

unfoldable pub xml_sourcepos : Node → ℕ → List Call
unfolding has_option position is_zero
xml_sourcepos n options =
    if has_option options opt_sourcepos && not (is_zero n.start_line)
    then say (codes " sourcepos=\"" ++ (position n ++ codes "\""))
    else []

-- An attribute with the text of a chunk.
unfoldable pub xml_attribute : Bytes → Chunk → List Call
xml_attribute name c = say (32 ∷ (name ++ codes "=\"")) ++ (put_html c ∷ put_char 34 ∷ [])

unfoldable pub delim_attribute : DelimType → List Call
delim_attribute paren_delim = say (codes " delim=\"paren\"")
delim_attribute period_delim = say (codes " delim=\"period\"")
delim_attribute no_delim = []

unfoldable pub list_kind : ListType → Node → Run (List Call)
unfolding decimal delim_attribute
list_kind ordered_list n = do
  start ← get_list_start (some n)
  delim ← get_list_delim (some n)
  ok (
      say (codes " type=\"ordered\"")
      ++ (say (codes " start=\"" ++ (decimal start ++ codes "\"")) ++ delim_attribute delim))
list_kind bullet_list n = ok (say (codes " type=\"bullet\""))
list_kind no_list n = ok []

unfoldable pub xml_list : Node → Run (List Call)
unfolding list_kind
xml_list n = do
  t ← get_list_type (some n)
  kind ← list_kind t n
  tight ← get_list_tight (some n)
  ok (
      kind
      ++ say (codes " tight=\"" ++ ((if tight then codes "true" else codes "false") ++ codes "\"")))

-- The text between the tags, and the start of the end tag.
unfoldable pub xml_literal : Node → Chunk → List Call
xml_literal n c = say (codes ">") ++ (put_html c ∷ (say (codes "</") ++ say (type_string n.type)))

-- The switch: the calls, and whether the node is a literal.
unfoldable pub xml_case : NodeType → Node → Run (List Call × Bool)
unfolding xml_list xml_literal xml_attribute decimal
xml_case document n = ok (say (codes " xmlns=\"http://commonmark.org/xml/1.0\""), false)
xml_case text n = literal_of n.value >>= λ c. ok (xml_literal n c, true)
xml_case code n = literal_of n.value >>= λ c. ok (xml_literal n c, true)
xml_case html_block n = literal_of n.value >>= λ c. ok (xml_literal n c, true)
xml_case html_inline n = literal_of n.value >>= λ c. ok (xml_literal n c, true)
xml_case list n = xml_list n >>= λ cs. ok (cs, false)
xml_case heading n = heading_of n.value >>= λ h.
    ok (say (codes " level=\"" ++ (decimal h.level ++ codes "\"")), false)
xml_case code_block n = code_of n.value >>= λ d. ok (
  (if d.info.len == 0 then [] else xml_attribute (codes "info") d.info) ++ xml_literal n d.literal,
  true,
)
xml_case custom_block n = custom_of n.value >>= λ d. ok (
  xml_attribute (codes "on_enter") d.on_enter ++ xml_attribute (codes "on_exit") d.on_exit,
  false,
)
xml_case custom_inline n = custom_of n.value >>= λ d. ok (
  xml_attribute (codes "on_enter") d.on_enter ++ xml_attribute (codes "on_exit") d.on_exit,
  false,
)
xml_case link n = link_of n.value >>= λ l.
    ok (xml_attribute (codes "destination") l.url ++ xml_attribute (codes "title") l.title, false)
xml_case image n = link_of n.value >>= λ l.
    ok (xml_attribute (codes "destination") l.url ++ xml_attribute (codes "title") l.title, false)
xml_case _ n = ok ([], false)

-- What is put when a node is entered.
unfoldable pub xml_start : Bool → Node → ℕ → ℕ → Run (List Call)
unfolding indent_calls xml_sourcepos xml_case
xml_start has_children n options indent = xml_case n.type n >>= λ r. ok (
    indent_calls indent
    ++ (put_char 60
        ∷ (say (type_string n.type)
            ++ (xml_sourcepos n options
                ++ (r.0
                    ++ ((if has_children then [] else if r.1 then [] else say (codes " /"))
                        ++ say (codes ">\n")))))))

unfoldable pub xml_end : Node → ℕ → List Call
unfolding indent_calls
xml_end n indent =
    indent_calls indent ++ (say (codes "</") ++ (say (type_string n.type) ++ say (codes ">\n")))

-- `S_render_node`. `indent` is an int, and the model stops where it would get negative.
unfoldable pub xml_event : Bool → Bool → Node → ℕ → ℕ → Run (List Call × ℕ)
unfolding xml_start xml_end
xml_event true has_children n options indent = xml_start has_children n options indent >>= λ cs.
    ok (cs, (if has_children then indent + 2 else indent))
xml_event false true n options indent =
    require (leb 2 indent) >> ok (xml_end n (indent - 2), indent - 2)
xml_event false false n options indent = ok ([], indent)

unfoldable pub xml_node : Document → ℕ → EventType → Ptr → ℕ → Run (List Call × ℕ)
unfolding xml_event is_enter
xml_node doc options ev_type p indent =
    xml_event (is_enter ev_type) (not (doc.links.first_child p == null)) (doc.nodes p) options
      indent

-- What `cmark_render_xml` puts in front.
unfoldable pub prologue : List Call
prologue =
    say (codes "<?xml version=\"1.0\" encoding=\"UTF-8\"?>\n")
    ++ say (codes "<!DOCTYPE document SYSTEM \"CommonMark.dtd\">\n")

-- `cmark_render_xml`
module _ ⦃libc : Libc⦄ where
  unfoldable pub render_xml : ℕ → Document → Ptr → ℕ → Run Bytes
  unfolding xml_node prologue render_events perform_all
  render_xml fuel doc root options = perform_all prologue empty >>= λ xml.
      render_events (xml_node doc options) fuel (tree_of doc) (iter_new root) 0 xml
