-- ===== src/Tests/Feeds.antt =====
-- The line feeder and the cursor of the block parser on concrete texts.
use cmark.Prelude.{
  ◌*◌, ◌≡◌, refl, inl, true, false, List, [], ◌∷◌, length, Bytes, Returns, ok, ◌>>=◌, arith,
}
use cmark.Buffer.Layout.{Ends}
use cmark.Blocks.{is_line_end_char}
use cmark.Blocks.Feed.{Piece, new_feeder, feed_all, feed_document, finish_line}
use cmark.Blocks.Feed.Spec.{document_lines, split, split_step, with_text}
use cmark.Blocks.Feed.Pieces.{concat, feed_all-document_lines, feed_document-document_lines}
use cmark.Blocks.Cursor.{
  Cursor, add_int, pass_byte, advance_offset, advance_loop, advance_byte, advance_tab, to_tab,
  find_first_nonspace, nonspace_loop,
}
use cmark.Blocks.Cursor.Column.{IsPlaced, column_of, next_column}
use cmark.Blocks.Cursor.Advance.{Advanced, advance_offset-Advanced}
use cmark.Tests.{libc_example}

-- `a`, CR, LF, an empty line, and `b` with a NUL behind it.
abbrev lines_example : Bytes
lines_example = 97 ∷ 13 ∷ 10 ∷ 10 ∷ 98 ∷ 0 ∷ []

lines_found : document_lines lines_example ≡ (97 ∷ []) ∷ [] ∷ (98 ∷ 239 ∷ 191 ∷ 189 ∷ []) ∷ []
unfolding document_lines split split_step with_text
lines_found = refl

feed_document-document_lines_example :
    Ends
      (3 * length lines_example)
      (λ q. q.processed ≡ document_lines lines_example)
      (feed_document (255 ∷ []) lines_example)
feed_document-document_lines_example =
    feed_document-document_lines lines_example 255 [] (omega arith)

-- The same text in one memory, cut between the carriage return and the line feed, so that behind a
-- piece lies the next one.
abbrev pieces_example : List Piece
pieces_example =
    record { text = 97 ∷ 13 ∷ []; behind = 10 ∷ 10 ∷ 98 ∷ 0 ∷ 255 ∷ [] }
    ∷ record { text = 10 ∷ 10 ∷ 98 ∷ []; behind = 0 ∷ 255 ∷ [] }
    ∷ record { text = 0 ∷ []; behind = 255 ∷ [] }
    ∷ []

feed_all-document_lines_example :
    Ends
      (3 * length (concat pieces_example))
      (λ q. q.processed ≡ document_lines (concat pieces_example))
      (feed_all pieces_example new_feeder >>= finish_line)
feed_all-document_lines_example =
    feed_all-document_lines pieces_example
      (
        omega arith,
        (10, 10 ∷ 98 ∷ 0 ∷ 255 ∷ [], refl),
        (omega arith, (0, 255 ∷ [], refl), (omega arith, (255, [], refl), tt)),
      )
      (omega arith)

-- A tab and `x`, with the parser at the start.
abbrev tab_line : Bytes
tab_line = 9 ∷ 120 ∷ 0 ∷ []

abbrev start : Cursor
start = record {
  offset = 0;
  column = 0;
  partially_consumed_tab = false;
  first_nonspace = 0;
  first_nonspace_column = 0;
  indent = 0;
  blank = false;
}

start-IsPlaced : IsPlaced tab_line start
unfolding column_of next_column to_tab
start-IsPlaced = record {
  before = [];
  text = 9 ∷ 120 ∷ [];
  rest = [];
  memory = refl;
  narrow = omega arith;
  offset_eq = refl;
  stands = inl (refl, refl);
}

-- Two columns end inside the tab.
tab_advanced :
    advance_offset tab_line start 2 true
    ≡ ok (record start { column = 2; partially_consumed_tab = true })
unfolding advance_offset advance_loop advance_byte advance_tab pass_byte add_int to_tab
tab_advanced = refl

nonspace_found :
    find_first_nonspace 3 tab_line start
    ≡ ok (record start { first_nonspace = 1; first_nonspace_column = 4; indent = 4 })
unfolding find_first_nonspace nonspace_loop add_int to_tab is_line_end_char
nonspace_found = refl

advance_offset-Advanced_example :
    Returns (Advanced tab_line start 2 true) (advance_offset tab_line start 2 true)
advance_offset-Advanced_example = advance_offset-Advanced tab_line start 2 true start-IsPlaced
