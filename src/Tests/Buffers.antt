-- ===== src/Tests/Buffers.antt =====
-- buffer.c on a concrete buffer.
use cmark.Prelude.{◌≡◌, refl, false, [], ◌∷◌, ◌++◌, low_bits, Returns, arith}
use cmark.Ctype.{is_space, is_punct}
use cmark.Blocks.Trailing.{remove_trailing_blank_lines}
use cmark.Blocks.Trailing.Lines.{Kept, remove_trailing_blank_lines-Kept}
use cmark.Buffer.{grow, put, putc}
use cmark.Buffer.Cut.{trim}
use cmark.Buffer.Rewrite.{normalize_whitespace, unescape}
use cmark.Buffer.Layout.{Holds, Ends}
use cmark.Buffer.Layout.Grow.{Grown, grow-Grown}
use cmark.Buffer.Layout.Append.{put-Holds, putc-Holds}
use cmark.Buffer.Cut.Trim.{trim_start, trim_end, trim-trimmed}
use cmark.Buffer.Rewrite.Whitespace.{collapse, normalize_whitespace-collapse}
use cmark.Buffer.Rewrite.Unescape.{unescaped, unescape-unescaped}
use cmark.Tests.{libc_example, codes, text_example, buffer_example, buffer_example-Holds}

grow-Grown_example : Ends 20 (Grown text_example 20) (grow buffer_example 20)
grow-Grown_example = grow-Grown 20 buffer_example-Holds.layout (omega arith) (omega arith)

put-Holds_example :
    Ends 18
      (λ b. Holds b (text_example ++ codes "some more.."))
      (put buffer_example (codes "some more.."))
put-Holds_example = put-Holds (codes "some more..") buffer_example-Holds (omega arith)

putc-Holds_example :
    Ends 8 (λ b. Holds b (text_example ++ low_bits 10 8 ∷ [])) (putc buffer_example 10)
putc-Holds_example = putc-Holds 10 buffer_example-Holds (omega arith)

remove_trailing_blank_lines-Kept_example :
    Returns (Kept text_example) (remove_trailing_blank_lines buffer_example)
remove_trailing_blank_lines-Kept_example =
    remove_trailing_blank_lines-Kept buffer_example text_example buffer_example-Holds

trim-trimmed_example :
    Returns (λ b. Holds b (trim_end (trim_start text_example))) (trim buffer_example)
trim-trimmed_example = trim-trimmed buffer_example-Holds

normalize_whitespace-collapse_example :
    Returns (λ b. Holds b (collapse false text_example)) (normalize_whitespace buffer_example)
normalize_whitespace-collapse_example = normalize_whitespace-collapse buffer_example-Holds

unescape-unescaped_example :
    Returns (λ b. Holds b (unescaped text_example)) (unescape buffer_example)
unescape-unescaped_example = unescape-unescaped buffer_example-Holds

collapse-text : collapse false text_example ≡ codes " a \\* "
unfolding collapse is_space
collapse-text = refl

unescaped-text : unescaped text_example ≡ codes " a  * "
unfolding unescaped is_punct
unescaped-text = refl
