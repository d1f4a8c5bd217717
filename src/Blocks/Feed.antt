-- ===== src/Blocks/Feed.antt =====
-- blocks.c: `S_parser_feed`, which cuts the input into lines, and what `cmark_parser_finish` does with
-- the last one. Of the parser these use the line buffer and the mark that the last buffer ended with
-- a carriage return; the lines that `S_process_line` is called on are recorded in order. Behind a
-- buffer lies other memory, whose first byte the code may read.
use cmark.Prelude.{
  ℕ, zero, suc, ◌+◌, Bool, true, false, not, ◌&&◌, ◌||◌, ◌==◌, ltb, List, [], ◌∷◌, ◌++◌, length,
  drop, Bytes, load, slice, if◌then◌else◌, Run, ok, out_of_fuel, ◌>>=◌,
}
use cmark.Alloc.{Libc}
use cmark.Buffer.{Strbuf, empty, put, clear}
use cmark.Blocks.{is_line_end_char}
pub mod Lines
pub mod Spec
pub mod Pieces

pub record Feeder : Type 0 where
  pub linebuf : Strbuf
  pub ended_with_cr : Bool
  pub processed : List Bytes

-- What a call of `cmark_parser_feed` is given, with the memory that lies behind it.
pub record Piece : Type 0 where
  pub text : Bytes
  pub behind : Bytes

-- As `cmark_parser_new` leaves it.
abbrev pub new_feeder : Feeder
new_feeder = record { linebuf = empty; ended_with_cr = false; processed = [] }

-- The inner loop: the bytes in front of a line end or a NUL, and the rest.
unfoldable pub stops : ℕ → Bool
unfolding is_line_end_char
stops c = is_line_end_char c || c == 0

unfoldable pub cut : Bytes → Bytes × Bytes
unfolding stops
cut [] = ([], [])
cut (c ∷ s) = let (chunk, rest) = cut s in if stops c then ([], c ∷ s) else (c ∷ chunk, rest)

-- `process`: a line end is found, or the end of the last buffer.
unfoldable pub ends_line : Bool → Bytes → Bool
unfolding is_line_end_char
ends_line eof [] = eof
ends_line eof (c ∷ rest) = is_line_end_char c

unfoldable pub process_line : Feeder → Bytes → Feeder
process_line p line = record p { processed = p.processed ++ line ∷ [] }

unfoldable pub repl : Bytes
repl = 239 ∷ 191 ∷ 189 ∷ []

module _ ⦃libc : Libc⦄ where
  unfoldable pub end_line : Feeder → Bytes → Run Feeder
  unfolding process_line
  end_line p chunk =
      if ltb 0 p.linebuf.size
      then (do
        b ← put p.linebuf chunk
        line ← slice b.ptr 0 b.size
        b' ← clear b
        ok (process_line (record p { linebuf = b' }) line))
      else ok (process_line p chunk)

  -- The branches without `process`: at a NUL, and at the end of the buffer.
  unfoldable pub keep_chunk : Feeder → Bytes → Bytes → Run Feeder
  unfolding repl
  keep_chunk p chunk [] = put p.linebuf chunk >>= λ b. ok (record p { linebuf = b })
  keep_chunk p chunk (c ∷ rest) = do
    b ← put p.linebuf chunk
    b' ← put b repl
    ok (record p { linebuf = b' })

  unfoldable pub take_chunk : Bool → Feeder → Bytes → Bytes → Run Feeder
  unfolding ends_line end_line keep_chunk
  take_chunk eof p chunk rest =
      if ends_line eof rest then end_line p chunk else keep_chunk p chunk rest

-- Skipping what `eol` points to. A line feed behind a carriage return is looked for behind the end
-- of the buffer too; the loop ends there either way.
unfoldable pub skip_lf : Bytes → Bytes
skip_lf [] = []
skip_lf (c ∷ s) = if c == 10 then s else c ∷ s

unfoldable pub at_end : Bytes → Bool
at_end [] = true
at_end (c ∷ s) = false

unfoldable pub skip_end : Bytes → Bytes → Feeder → Run (Bytes × Feeder)
unfolding skip_lf at_end
skip_end behind [] p = ok ([], p)
skip_end behind (c ∷ s) p =
    if c == 0
    then ok (s, p)
    else if c == 13
    then (load (s ++ behind) 0 >>= λ next.
        ok (skip_lf s, (if at_end s then record p { ended_with_cr = true } else p)))
    else ok (s, p)

module _ ⦃libc : Libc⦄ where
  unfoldable pub feed_loop : ℕ → Bool → Bytes → Bytes → Feeder → Run Feeder
  unfolding cut take_chunk skip_end
  feed_loop zero eof behind buffer p = out_of_fuel
  feed_loop (suc fuel) eof behind [] p = ok p
  feed_loop (suc fuel) eof behind (c ∷ s) p = do
    let (chunk, rest) = cut (c ∷ s)
    p' ← take_chunk eof p chunk rest
    r ← skip_end behind rest p'
    feed_loop fuel eof behind r.0 r.1

  -- `S_parser_feed`; each round of the loop passes over a byte at least.
  unfoldable pub feed : Bool → Bytes → Bytes → Feeder → Run Feeder
  unfolding feed_loop skip_lf
  feed eof behind buffer p = do
    buffer' ←
        if p.ended_with_cr
        then (load (buffer ++ behind) 0 >>= λ c. ok (skip_lf buffer))
        else ok buffer
    feed_loop (length buffer' + 1) eof behind buffer' (record p { ended_with_cr = false })

  -- The first part of `cmark_parser_finish`.
  unfoldable pub finish_line : Feeder → Run Feeder
  unfolding process_line
  finish_line p = if p.linebuf.size == 0 then ok p else (do
    line ← slice p.linebuf.ptr 0 p.linebuf.size
    b ← clear p.linebuf
    ok (process_line (record p { linebuf = b }) line))

  -- The feeding of `cmark_parse_document`.
  unfoldable pub feed_document : Bytes → Bytes → Run Feeder
  unfolding feed finish_line
  feed_document behind text = feed true behind text new_feeder >>= finish_line

  -- Several calls of `cmark_parser_feed`.
  unfoldable pub feed_all : List Piece → Feeder → Run Feeder
  unfolding feed
  feed_all [] p = ok p
  feed_all (c ∷ cs) p = feed false c.behind c.text p >>= λ p'. feed_all cs p'
