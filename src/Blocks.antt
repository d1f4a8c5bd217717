-- ===== src/Blocks.antt =====
-- blocks.c, the block parser: the operations below the level of nodes. Blocks/Feed.antt splits the
-- input into lines.
use cmark.Prelude.{ℕ, Bool, ◌||◌, ◌==◌}
pub mod Feed
pub mod Cursor
pub mod Markers
pub mod Trailing

-- `S_is_line_end_char`, `S_is_space_or_tab`
unfoldable pub is_line_end_char : ℕ → Bool
is_line_end_char c = c == 10 || c == 13

unfoldable pub is_space_or_tab : ℕ → Bool
is_space_or_tab c = c == 32 || c == 9
