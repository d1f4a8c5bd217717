-- ===== src/Html.antt =====
-- html.c: the renderer of HTML. `S_render_node` gives the calls on the buffer for an event, and the
-- image below which only plain text is rendered, or null. The options are the bits of an int.
use cmark.Prelude.{
  ℕ, zero, suc, ◌+◌, ◌-◌, ◌/◌, ◌%◌, Bool, true, false, not, ◌&&◌, Option, none, some, List, [], ◌∷◌,
  ◌++◌, ◌==◌, if◌then◌else◌, Bytes, low_bits, load, codes, decimal, Run, ok, fault, ◌>>=◌,
}
use cmark.Prelude.Int.{ℤ, pos, negsuc}
use cmark.Alloc.{Libc}
use cmark.Ctype.{is_space}
use cmark.Buffer.{empty}
use cmark.Chunk.{Chunk, memory_of}
use cmark.Node.{
  Ptr, null, NodeType, no_node, document, block_quote, list, item, code_block, html_block,
  custom_block, paragraph, heading, thematic_break, text, softbreak, linebreak, code, html_inline,
  custom_inline, emph, strong, link, image, node_parent,
}
use cmark.Node.Content.{
  Node, ListType, bullet_list, no_list, ordered_list, list_of, code_of, heading_of, literal_of,
  link_of, custom_of, CodeData, LinkData,
}
use cmark.Iterator.{EventType, iter_new}
use cmark.Scanners.{scan}
use cmark.Scanners.Table.{scan_dangerous_url}
use cmark.Render.{
  Document, tree_of, Call, put_char, put_string, put_chunk, put_html, put_href, put_cr, is_enter,
  render_events,
}
pub mod Nested
pub mod Makes
pub mod Whole
pub mod Safe

-- `options & (1 << bit)`
unfoldable pub has_option : ℕ → ℕ → Bool
has_option options bit = not (options / bit % 2 == 0)

abbrev pub opt_sourcepos : ℕ
opt_sourcepos = 2

abbrev pub opt_hardbreaks : ℕ
opt_hardbreaks = 4

abbrev pub opt_safe : ℕ
opt_safe = 8

abbrev pub opt_nobreaks : ℕ
opt_nobreaks = 16

abbrev pub say : Bytes → List Call
say s = put_string s ∷ []

-- `%d:%d-%d:%d`
unfoldable pub position : Node → Bytes
unfolding decimal
position n =
    decimal n.start_line
    ++ (58 ∷ (decimal n.start_column ++ (45 ∷ (decimal n.end_line ++ (58 ∷ decimal n.end_column)))))

-- `S_render_sourcepos`
unfoldable pub sourcepos : Node → ℕ → List Call
unfolding has_option position
sourcepos n options =
    if has_option options opt_sourcepos
    then say (codes " data-sourcepos=\"" ++ (position n ++ codes "\""))
    else []

-- `(char)('0' + level)`, and the C string that ends with it
unfoldable pub level_char : ℤ → ℕ
level_char (pos n) = low_bits (48 + n) 8
level_char (negsuc n) = low_bits (48 + 255 - low_bits n 8) 8

unfoldable pub ends_with : Bytes → ℕ → Bytes
ends_with s c = if c == 0 then s else s ++ c ∷ []

unfoldable pub is_bullet : ListType → Bool
is_bullet bullet_list = true
is_bullet _ = false

unfoldable pub is_list : NodeType → Bool
is_list list = true
is_list _ = false

unfoldable pub is_one : ℤ → Bool
is_one (pos n) = n == 1
is_one (negsuc n) = false

-- The loop for the end of the first word of an info string.
unfoldable pub first_tag : ℕ → Bytes → ℕ → Run ℕ
first_tag zero m i = ok i
first_tag (suc n) m i =
    load m i >>= λ c. let rest = first_tag n m (i + 1) in if is_space c then ok i else rest

unfoldable pub html_list_start : Node → ℕ → Run (List Call)
unfolding is_bullet is_one sourcepos decimal
html_list_start n options = list_of n.value >>= λ l. ok (
    if is_bullet l.list_type
    then put_cr ∷ (say (codes "<ul") ++ (sourcepos n options ++ say (codes ">\n")))
    else if is_one l.start
    then put_cr ∷ (say (codes "<ol") ++ (sourcepos n options ++ say (codes ">\n")))
    else put_cr
      ∷ (say (codes "<ol start=\"" ++ (decimal l.start ++ codes "\""))
          ++ (sourcepos n options ++ say (codes ">\n"))))

unfoldable pub html_list_end : Node → Run (List Call)
unfolding is_bullet
html_list_end n = list_of n.value >>= λ l.
    ok (say (if is_bullet l.list_type then codes "</ul>\n" else codes "</ol>\n"))

unfoldable pub html_heading : Bool → Node → ℕ → Run (List Call)
unfolding level_char ends_with sourcepos
html_heading true n options = heading_of n.value >>= λ h. ok (
    put_cr
    ∷ (say (ends_with (codes "<h") (level_char h.level))
        ++ (sourcepos n options ++ put_char 62 ∷ [])))
html_heading false n options = heading_of n.value >>= λ h.
    ok (say (ends_with (codes "</h") (level_char h.level)) ++ say (codes ">\n"))

unfoldable pub info_attribute : Chunk → Run (List Call)
unfolding first_tag memory_of
info_attribute info = do
  m ← memory_of info.bytes
  first ← first_tag info.len m 0
  ok (
      say (codes "><code class=\"language-")
      ++ (put_html (record info { len = first }) ∷ say (codes "\">")))

unfoldable pub html_code_block : Node → ℕ → Run (List Call)
unfolding info_attribute sourcepos
html_code_block n options = code_of n.value >>= λ d.
    (if d.info.len == 0 then ok (say (codes "><code>")) else info_attribute d.info) >>= λ tag. ok (
      put_cr
      ∷ (say (codes "<pre")
          ++ (sourcepos n options
              ++ (tag ++ (put_html d.literal ∷ say (codes "</code></pre>\n"))))))

-- Raw HTML, which the option SAFE leaves out.
unfoldable pub raw_html : Node → ℕ → Run (List Call)
unfolding has_option
raw_html n options =
    if has_option options opt_safe
    then ok (say (codes "<!-- raw HTML omitted -->"))
    else (literal_of n.value >>= λ c. ok (put_chunk c ∷ []))

unfoldable pub html_custom : Bool → Node → Run (List Call)
html_custom true n = custom_of n.value >>= λ d. ok (put_chunk d.on_enter ∷ [])
html_custom false n = custom_of n.value >>= λ d. ok (put_chunk d.on_exit ∷ [])

-- Whether the paragraph is in a tight list: by its grandparent.
unfoldable pub in_tight_list : Document → Ptr → Run Bool
unfolding node_parent is_list
in_tight_list doc p =
    let grandparent = node_parent (tree_of doc) (node_parent (tree_of doc) p) in
    if grandparent == null
    then ok false
    else if is_list (doc.nodes grandparent).type
    then (list_of (doc.nodes grandparent).value >>= λ l. ok l.tight)
    else ok false

unfoldable pub html_paragraph : Bool → Document → Ptr → ℕ → Run (List Call)
unfolding in_tight_list sourcepos
html_paragraph true doc p options = in_tight_list doc p >>= λ tight. ok (
    if tight
    then []
    else put_cr ∷ (say (codes "<p") ++ (sourcepos (doc.nodes p) options ++ put_char 62 ∷ [])))
html_paragraph false doc p options =
    in_tight_list doc p >>= λ tight. ok (if tight then [] else say (codes "</p>\n"))

unfoldable pub html_softbreak : ℕ → List Call
unfolding has_option
html_softbreak options =
    if has_option options opt_hardbreaks
    then say (codes "<br />\n")
    else if has_option options opt_nobreaks
    then put_char 32 ∷ []
    else put_char 10 ∷ []

-- `if (!((options & CMARK_OPT_SAFE) && scan_dangerous_url(url, 0))) houdini_escape_href(…)`
unfoldable pub html_url : Chunk → ℕ → Run (List Call)
unfolding has_option scan scan_dangerous_url
html_url url options =
    if has_option options opt_safe
    then (scan scan_dangerous_url url 0 >>= λ n. ok (if n == 0 then put_href url ∷ [] else []))
    else ok (put_href url ∷ [])

unfoldable pub html_title : Chunk → List Call
html_title title = if title.len == 0 then [] else say (codes "\" title=\"") ++ put_html title ∷ []

unfoldable pub html_link : Bool → Node → ℕ → Run (List Call)
unfolding html_url html_title
html_link true n options = do
  l ← link_of n.value
  url ← html_url l.url options
  ok (say (codes "<a href=\"") ++ (url ++ (html_title l.title ++ say (codes "\">"))))
html_link false n options = ok (say (codes "</a>"))

unfoldable pub html_image : Bool → Node → ℕ → Run (List Call)
unfolding html_url html_title
html_image true n options = do
  l ← link_of n.value
  url ← html_url l.url options
  ok (say (codes "<img src=\"") ++ (url ++ say (codes "\" alt=\"")))
html_image false n options = link_of n.value >>= λ l. ok (html_title l.title ++ say (codes "\" />"))

-- The first switch, below an image.
unfoldable pub html_plain : NodeType → Node → Run (List Call)
html_plain text n = literal_of n.value >>= λ c. ok (put_html c ∷ [])
html_plain code n = literal_of n.value >>= λ c. ok (put_html c ∷ [])
html_plain html_inline n = literal_of n.value >>= λ c. ok (put_html c ∷ [])
html_plain linebreak n = ok (put_char 32 ∷ [])
html_plain softbreak n = ok (put_char 32 ∷ [])
html_plain _ n = ok []

-- The second switch. A type without a case is an `assert(false)`.
unfoldable pub html_calls : NodeType → Bool → Document → Ptr → ℕ → Run (List Call)
unfolding html_list_start html_list_end html_heading html_code_block raw_html html_custom
    html_paragraph html_softbreak html_link html_image sourcepos
html_calls document entering doc p options = ok []
html_calls block_quote true doc p options =
    ok (
      put_cr
      ∷ (say (codes "<blockquote") ++ (sourcepos (doc.nodes p) options ++ say (codes ">\n"))))
html_calls block_quote false doc p options = ok (put_cr ∷ say (codes "</blockquote>\n"))
html_calls list true doc p options = html_list_start (doc.nodes p) options
html_calls list false doc p options = html_list_end (doc.nodes p)
html_calls item true doc p options =
    ok (put_cr ∷ (say (codes "<li") ++ (sourcepos (doc.nodes p) options ++ put_char 62 ∷ [])))
html_calls item false doc p options = ok (say (codes "</li>\n"))
html_calls heading entering doc p options = html_heading entering (doc.nodes p) options
html_calls code_block entering doc p options = html_code_block (doc.nodes p) options
html_calls html_block entering doc p options =
    raw_html (doc.nodes p) options >>= λ cs. ok (put_cr ∷ (cs ++ put_cr ∷ []))
html_calls custom_block entering doc p options =
    html_custom entering (doc.nodes p) >>= λ cs. ok (put_cr ∷ (cs ++ put_cr ∷ []))
html_calls thematic_break entering doc p options =
    ok (put_cr ∷ (say (codes "<hr") ++ (sourcepos (doc.nodes p) options ++ say (codes " />\n"))))
html_calls paragraph entering doc p options = html_paragraph entering doc p options
html_calls text entering doc p options = html_plain text (doc.nodes p)
html_calls linebreak entering doc p options = ok (say (codes "<br />\n"))
html_calls softbreak entering doc p options = ok (html_softbreak options)
html_calls code entering doc p options = literal_of (doc.nodes p).value >>= λ c.
    ok (say (codes "<code>") ++ (put_html c ∷ say (codes "</code>")))
html_calls html_inline entering doc p options = raw_html (doc.nodes p) options
html_calls custom_inline entering doc p options = html_custom entering (doc.nodes p)
html_calls strong true doc p options = ok (say (codes "<strong>"))
html_calls strong false doc p options = ok (say (codes "</strong>"))
html_calls emph true doc p options = ok (say (codes "<em>"))
html_calls emph false doc p options = ok (say (codes "</em>"))
html_calls link entering doc p options = html_link entering (doc.nodes p) options
html_calls image entering doc p options = html_image entering (doc.nodes p) options
html_calls no_node entering doc p options = fault

unfoldable pub is_image : NodeType → Bool
is_image image = true
is_image _ = false

-- `state->plain = node`, when an image is entered
unfoldable pub plain_after : NodeType → Bool → Ptr → Ptr
unfolding is_image
plain_after t entering p = if is_image t && entering then p else null

-- `S_render_node`; `plain` is the field of the state.
unfoldable pub html_node : Document → ℕ → EventType → Ptr → Ptr → Run (List Call × Ptr)
unfolding html_calls html_plain is_enter plain_after
html_node doc options ev_type p plain =
    let now = if plain == p then null else plain in
    let n = doc.nodes p in
    if now == null
    then (html_calls n.type (is_enter ev_type) doc p options >>= λ cs.
        ok (cs, plain_after n.type (is_enter ev_type) p))
    else (html_plain n.type n >>= λ cs. ok (cs, now))

-- `cmark_render_html`
module _ ⦃libc : Libc⦄ where
  unfoldable pub render_html : ℕ → Document → Ptr → ℕ → Run Bytes
  unfolding html_node render_events
  render_html fuel doc root options =
      render_events (html_node doc options) fuel (tree_of doc) (iter_new root) null empty
