-- ===== src/Lib.antt =====
-- A model of libcmark, the CommonMark library in src/ of the repository, with theorems about its
-- data structures and its text routines.
--
-- The library reads Markdown into a tree of nodes and renders the tree. All text is built in
-- growing byte buffers, over an allocator that aborts when memory runs out. The block and inline
-- parsers fill nodes by way of the tree operations, which are also the public interface for
-- programs that change a document. The renderers walk the tree, and escape text for HTML and URLs
-- into a buffer.
--
--   Prelude.antt: shared names, lists and numbers, memory as byte lists, and the outcomes of a
--     run of C code: a value, an abort, a fault (undefined behaviour), or a loop cut off for want
--     of fuel.
--   Alloc.antt: xcalloc and xrealloc of src/cmark.c. calloc and realloc are parameters, with the
--     laws of the C standard.
--   Ctype.antt: src/cmark_ctype.c.
--   Buffer.antt: src/buffer.c. A `Strbuf` is the memory that its pointer leads to, its allocated
--     size and its size. Buffer/Cut.antt, Buffer/Rewrite.antt and Buffer/Search.antt hold the
--     operations that shorten, rewrite and read a buffer; Buffer/Layout.antt says what text a
--     buffer holds.
--   Utf8.antt: charlen, valid, iterate, encode_char and check of src/utf8.c, the character tests
--     in Utf8/Classes.antt, and cmark_utf8proc_case_fold in Utf8/Fold.antt, with the switch of
--     case_fold_switch.inc as a parameter.
--   Houdini.antt: src/houdini_html_e.c and src/houdini_href_e.c; Houdini/Unescape.antt holds
--     src/houdini_html_u.c, with the table of entities.inc as a parameter.
--   Node.antt: the links between nodes and cmark_node_unlink of src/node.c; Node/Insert.antt
--     holds cmark_node_insert_before, _insert_after, _replace, _prepend_child and _append_child.
--     Node/Content.antt holds the other fields of a node, as a value apart from the store of
--     links, with their getters and setters.
--   Chunk.antt: the slices of text of src/chunk.h.
--   Iterator.antt: src/iterator.c without cmark_consolidate_text_nodes; Iterator/Walk.antt says
--     which events it reports.
--   Scanners.antt: src/scanners.re, from which re2c generates src/scanners.c. A pattern is a
--     value of the type Regex; Scanners/Patterns.antt, Scanners/Rules.antt and Scanners/Table.antt
--     have the notation, the definitions and the scanners of the file.
--   Render.antt: what the renderers share: the calls on the buffer and the loop over the iterator.
--     Html.antt is src/html.c and Xml.antt src/xml.c, whose handlers give a list of calls for an
--     event; Html/Nested.antt and Xml/Nested.antt give the calls by recursion over the tree.
--   Blocks.antt: of src/blocks.c, the tests on bytes; Blocks/Feed.antt holds S_parser_feed with the
--     line buffer, Blocks/Cursor.antt the routines that find and move the place in a line, and
--     Blocks/Markers.antt parse_list_marker, with sizeof(cmark_list) as a parameter;
--     Blocks/Trailing.antt is remove_trailing_blank_lines.
--   Inlines.antt: of src/inlines.c, the functions that clean URLs and titles, in
--     Inlines/Clean.antt.
--   References.antt: the map of link references of src/references.c.
--   Tests.antt: the model on concrete data.
--
-- Functions keep their names without the prefix cmark_ or cmark_strbuf_. A pointer with a length is
-- a list of bytes; a signed length whose negative values the code tests is an integer of
-- Prelude/Int.antt; the pointers of a tree are numbers with 0 as the null pointer, and a tree is
-- one map for each pointer field, so that a write to a field of one node leaves the rest alone.
--
-- Loops over text recurse on the text or on fuel of its length and one, since each round passes
-- over a byte; the theorems show that it is enough. The walk from a node up to the root has fuel as
-- a parameter, for which any bound on the height of the tree is enough. The loop of a renderer has
-- one round for each event and one more; S_advance_offset has one for each byte or column of its
-- count.
--
-- Not modelled: the rest of the block parser src/blocks.c, which opens and closes blocks over the
-- tree, and of src/inlines.c, which reads the text of a leaf; src/render.c and the renderers
-- src/latex.c, src/man.c and src/commonmark.c over it; src/xhtml.c, an older copy of src/html.c;
-- cmark_consolidate_text_nodes of src/iterator.c, the freeing and checking of nodes, the command
-- line, and the bundled libraries and tools. The freeing of memory has no effect in the model,
-- since a list of bytes is never reused. In the XML renderer the model stops where the indentation
-- would get negative. Numbers are printed without a limit on their digits, since the buffers of
-- snprintf hold any int. The tables that re2c makes are not modelled, but the patterns they come from.
pub mod Prelude
pub mod Alloc
pub mod Ctype
pub mod Buffer
pub mod Utf8
pub mod Houdini
pub mod Node
pub mod Chunk
pub mod Iterator
pub mod Inlines
pub mod Scanners
pub mod References
pub mod Blocks
pub mod Render
pub mod Html
pub mod Xml
pub mod Tests
