-- ===== src/Tests/Markers.antt =====
-- List markers on concrete lines.
use cmark.Prelude.{◌≡◌, refl, false, true, none, some, [], ◌∷◌, ◌++◌, ℕ, ok, arith}
use cmark.Alloc.{xcalloc}
use cmark.Buffer.Layout.{Ends}
use cmark.Ctype.{is_digit, is_space}
use cmark.Blocks.{is_space_or_tab}
use cmark.Blocks.Markers.{
  parse_list_marker, bullet, ordered, ordered_data, digits_loop, delimiter_at, skip_blanks,
  found_marker,
}
use cmark.Blocks.Markers.Inside.{MarkerInside, parse_list_marker-MarkerInside}
use cmark.Tests.{libc_example, codes}

-- `sizeof(cmark_list)` where an int and an enum have four bytes.
abbrev list_size : ℕ
list_size = 28

number_found :
    parse_list_marker list_size (codes "12) a" ++ 10 ∷ 0 ∷ []) 0 false
    ≡ ok (some (3, ordered_data 41 12))
unfolding parse_list_marker ordered digits_loop delimiter_at found_marker ordered_data is_digit
    is_space xcalloc
number_found = refl

-- Ten digits are too many.
long_number : parse_list_marker list_size (codes "1234567890. a" ++ 10 ∷ 0 ∷ []) 0 false ≡ ok none
unfolding parse_list_marker ordered digits_loop delimiter_at is_digit
long_number = refl

-- An empty item cannot interrupt a paragraph.
empty_item : parse_list_marker list_size (codes "- " ++ 10 ∷ 0 ∷ []) 0 true ≡ ok none
unfolding parse_list_marker bullet skip_blanks is_space_or_tab is_space
empty_item = refl

parse_list_marker-MarkerInside_example :
    Ends 0
      (MarkerInside (codes " 7. b") 1)
      (parse_list_marker list_size (codes " 7. b" ++ 10 ∷ 0 ∷ []) 1 false)
parse_list_marker-MarkerInside_example =
    parse_list_marker-MarkerInside list_size (codes " 7. b") (0 ∷ []) 1 false (omega arith)
