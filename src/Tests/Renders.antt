-- ===== src/Tests/Renders.antt =====
-- The renderers on a concrete tree: a paragraph with an image, in whose description stands `a<b`.
use cmark.Prelude.{
  ℕ, ◌≡◌, refl, ◌⊎◌, inl, inr, false, true, [], ◌∷◌, ◌++◌, List, Bytes, some, length, Run, ok, ◌==◌,
  if◌then◌else◌, arith,
}
use cmark.Buffer.Layout.{Ends}
use cmark.Chunk.{Chunk, empty_chunk, memory_of}
use cmark.Node.{Ptr, null, NodeType, document, paragraph, image, text}
use cmark.Node.Content.{As, zeroed, as_link, as_literal, new_node, link_of, literal_of}
use cmark.Iterator.{State, at, enter, exit, is_leaf, iter_new, fresh}
use cmark.Iterator.Walk.{Subtree, leaf, inner, Siblings, final}
use cmark.Render.{
  Document, chunk_text, tree_of, Call, put_cr, put_string, put_char, put_href, put_html,
}
use cmark.Render.Written.{AllPut, written, text_of, added, at_line_start}
use cmark.Houdini.{
  href_safe, href_safe_table, escape_code, html_escape_table, html_literal, html_escapes,
}
use cmark.Houdini.Loop.{escaped}
use cmark.Houdini.Html.{html_piece}
use cmark.Scanners.{scan}
use cmark.Scanners.Table.{scan_dangerous_url}
use cmark.Render.Trees.{shape}
use cmark.Html.{render_html, html_calls, html_plain, has_option}
use cmark.Html.Nested.{html_tree}
use cmark.Html.Safe.{AllSafe, is_custom, html_tree-AllSafe}
use cmark.Html.Whole.{render_html-html_tree}
use cmark.Xml.{
  render_xml, prologue, xml_start, xml_case, xml_attribute, xml_literal, type_string, xml_end,
  indent_calls, xml_sourcepos,
}
use cmark.Xml.Nested.{xml_tree}
use cmark.Xml.Whole.{render_xml-xml_tree}
use cmark.Tests.{libc_example, codes}

abbrev chunk : Bytes → Chunk
chunk s = record { bytes = some (s ++ 0 ∷ []); len = length s; alloc = true }

abbrev type_at : Ptr → NodeType
type_at p =
    if p == 1 then document else if p == 2 then paragraph else if p == 3 then image else text

abbrev value_at : Ptr → As
value_at p =
    if p == 3
    then as_link (record { url = chunk (codes "u"); title = empty_chunk })
    else if p == 4
    then as_literal (chunk (codes "a<b"))
    else zeroed

abbrev document_example : Document
document_example = record {
  links = record {
    next = λ p. null;
    prev = λ p. null;
    parent = λ p. if p == 2 then 1 else if p == 3 then 2 else if p == 4 then 3 else null;
    first_child = λ p. if p == 1 then 2 else if p == 2 then 3 else if p == 3 then 4 else null;
    last_child = λ p. if p == 1 then 2 else if p == 2 then 3 else if p == 3 then 4 else null;
    type = type_at;
  };
  nodes = λ p. record (new_node (type_at p)) { type = type_at p; value = value_at p };
}

abbrev events : List State
events = at enter 1 ∷ at enter 2 ∷ at enter 3 ∷ at enter 4 ∷ at exit 3 ∷ at exit 2 ∷ at exit 1 ∷ []

tree : Subtree (tree_of document_example) 1 1 events
unfolding is_leaf
tree =
    let words : Siblings (tree_of document_example) 1 3 4 (at enter 4 ∷ []) =
      final {c = 4} (λ e. cc e) refl (λ e. cc e) (leaf {p = 4} (λ e. cc e) refl) in
    let picture : Siblings (tree_of document_example) 1 2 3
        (at enter 3 ∷ at enter 4 ∷ at exit 3 ∷ []) =
      final {c = 3} (λ e. cc e) refl (λ e. cc e)
        (inner {p = 3} (λ e. cc e) refl (λ e. cc e) words) in
    let line : Siblings (tree_of document_example) 1 1 2
        (at enter 2 ∷ at enter 3 ∷ at enter 4 ∷ at exit 3 ∷ at exit 2 ∷ []) =
      final {c = 2} (λ e. cc e) refl (λ e. cc e)
        (inner {p = 2} (λ e. cc e) refl (λ e. cc e) picture) in
    inner {p = 1} (λ e. cc e) refl (λ e. cc e) line

iter_document : iter_new 1 ≡ some (fresh 1)
unfolding iter_new
iter_document = refl

abbrev html_example : List Call
html_example =
    put_cr
    ∷ put_string (codes "<p")
    ∷ put_char 62
    ∷ put_string (codes "<img src=\"")
    ∷ put_href (chunk (codes "u"))
    ∷ put_string (codes "\" alt=\"")
    ∷ put_html (chunk (codes "a<b"))
    ∷ put_string (codes "\" />")
    ∷ put_string (codes "</p>\n")
    ∷ []

html_made :
    (options : ℕ)
    → (options ≡ 0) ⊎ (options ≡ 8)
    → html_tree document_example options false (shape tree) ≡ ok html_example
unfolding html_tree shape tree html_calls link_of html_plain literal_of scan_dangerous_url scan
html_made options (inl e) = rw e
html_made options (inr e) = rw e

abbrev got : Run (List Call) → List Call
got (ok cs) = cs
got _ = []

html_written : written html_example [] ≡ codes "<p><img src=\"u\" alt=\"a&lt;b\" /></p>\n"
unfolding written added at_line_start text_of chunk_text memory_of escaped href_safe href_safe_table
    escape_code html_escape_table html_piece html_literal html_escapes
html_written = refl

html_example-AllPut : AllPut html_example
unfolding text_of chunk_text memory_of
html_example-AllPut =
    (tt, (tt, (tt, (tt, ((refl, omega arith), (tt, ((refl, omega arith), (tt, (tt, tt)))))))))

render_html-html_tree_example :
    Ends
      (length (written html_example []))
      (λ text. (junk : Bytes) × (text ≡ written html_example [] ++ 0 ∷ junk))
      (render_html 8 document_example 1 0)
render_html-html_tree_example =
    render_html-html_tree document_example 0 html_example tree iter_document
      (html_made 0 (inl refl)) html_example-AllPut (rw html_written (omega arith))

html_tree-AllSafe_example : AllSafe html_example
unfolding is_custom tree shape has_option
html_tree-AllSafe_example =
    html_tree-AllSafe document_example 8 refl (shape tree) html_example
      (refl, ((refl, ((refl, ((refl, tt), tt)), tt)), tt)) (html_made 8 (inr refl))

xml_example : List Call
unfolding xml_tree shape tree xml_start xml_case xml_attribute xml_literal link_of literal_of
    type_string xml_end indent_calls xml_sourcepos has_option new_node
xml_example = got (xml_tree document_example 0 0 (shape tree))

xml_made : xml_tree document_example 0 0 (shape tree) ≡ ok xml_example
unfolding xml_example
xml_made = refl

xml_written :
    written xml_example (written prologue [])
    ≡ codes
        "<?xml version=\"1.0\" encoding=\"UTF-8\"?>\n<!DOCTYPE document SYSTEM \"CommonMark.dtd\">\n"
      ++ (codes
            "<document xmlns=\"http://commonmark.org/xml/1.0\">\n  <paragraph>\n    <image destination=\"u\" title=\"\">\n"
          ++ codes "      <text>a&lt;b</text>\n    </image>\n  </paragraph>\n</document>\n")
unfolding xml_example prologue written added at_line_start text_of chunk_text memory_of escaped
    escape_code html_escape_table html_piece html_literal html_escapes
xml_written = refl

xml_example-AllPut : AllPut xml_example
unfolding xml_example text_of chunk_text memory_of
xml_example-AllPut = (
  tt,
  (
    tt,
    (
      tt,
      (
        tt,
        (
          tt,
          (
            tt,
            (
              tt,
              (
                tt,
                (
                  tt,
                  (
                    tt,
                    (
                      tt,
                      (
                        tt,
                        (
                          tt,
                          (
                            tt,
                            (
                              tt,
                              (
                                tt,
                                (
                                  (refl, omega arith),
                                  (
                                    tt,
                                    (
                                      tt,
                                      (
                                        (refl, omega arith),
                                        (
                                          tt,
                                          (
                                            tt,
                                            (
                                              tt,
                                              (
                                                tt,
                                                (
                                                  tt,
                                                  (
                                                    tt,
                                                    (
                                                      tt,
                                                      (
                                                        tt,
                                                        (
                                                          tt,
                                                          (
                                                            tt,
                                                            (
                                                            tt,
                                                            (
                                                            (refl, omega arith),
                                                            (
                                                            tt,
                                                            (
                                                            tt,
                                                            (
                                                            tt,
                                                            (
                                                            tt,
                                                            (
                                                            tt,
                                                            (
                                                            tt,
                                                            (
                                                            tt,
                                                            (
                                                            tt,
                                                            (
                                                            tt,
                                                            (
                                                            tt,
                                                            (
                                                            tt,
                                                            (
                                                            tt,
                                                            (tt, (tt, (tt, (tt, (tt, (tt, tt)))))),
                                                            ),
                                                            ),
                                                            ),
                                                            ),
                                                            ),
                                                            ),
                                                            ),
                                                            ),
                                                            ),
                                                            ),
                                                            ),
                                                            ),
                                                            ),
                                                            ),
                                                          ),
                                                        ),
                                                      ),
                                                    ),
                                                  ),
                                                ),
                                              ),
                                            ),
                                          ),
                                        ),
                                      ),
                                    ),
                                  ),
                                ),
                              ),
                            ),
                          ),
                        ),
                      ),
                    ),
                  ),
                ),
              ),
            ),
          ),
        ),
      ),
    ),
  ),
)

leaves :
    (p : Ptr)
    → is_leaf (document_example.nodes p).type ≡ true
    → document_example.links.first_child p ≡ null
unfolding is_leaf
leaves p h = ground arith

render_xml-xml_tree_example :
    Ends
      (length (written xml_example (written prologue [])))
      (λ text. (junk : Bytes) × (text ≡ written xml_example (written prologue []) ++ 0 ∷ junk))
      (render_xml 8 document_example 1 0)
render_xml-xml_tree_example =
    render_xml-xml_tree document_example 0 xml_example tree iter_document leaves xml_made
      xml_example-AllPut (rw xml_written (omega arith))
