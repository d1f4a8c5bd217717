-- ===== src/Blocks/Feed/Pieces.antt =====
-- The feeding of a document, at once and in pieces.
use cmark.Prelude.{
  ℕ, ◌+◌, ◌*◌, ◌≤◌, ◌<◌, ◌≡◌, refl, ap, ◌∙◌, Bool, true, false, ◌==◌, List, [], ◌∷◌, ◌++◌, length,
  length-append, Bytes, ◌>>=◌, arith,
}
use mathlib.Core.Path.{subst}
use cmark.Alloc.{Libc}
use cmark.Buffer.{int32_max}
use cmark.Buffer.Layout.{Ends, done, bind, bind_Returns, mono, empty-Holds}
use cmark.Buffer.Layout.Clear.{clear-Holds}
use cmark.Blocks.Feed.{
  Feeder, Piece, new_feeder, process_line, skip_lf, feed, finish_line, feed_document, feed_all,
}
use cmark.Blocks.Feed.Spec.{
  split_of, split, with_text, document_lines, split-append, split-skip_lf, split-length,
}
use cmark.Blocks.Feed.Lines.{Fed, Agrees, slice-Holds, skip_lf-length, feed_loop-Agrees}

-- The text of all pieces.
abbrev pub concat : List Piece → Bytes
concat [] = []
concat (c ∷ cs) = c.text ++ concat cs

-- A piece has at least one byte, and behind it lies at least one byte.
abbrev pub AllPieces : List Piece → Type 0
AllPieces [] = Unit {0}
AllPieces (c ∷ cs) =
    (0 < length c.text)
    × ((next : ℕ) × (memory : Bytes) × (c.behind ≡ next ∷ memory))
    × AllPieces cs

new_feeder-Fed : Fed new_feeder (split_of [] false [])
new_feeder-Fed = record { holds = empty-Holds; cr_eq = refl; lines_eq = refl }

module _ ⦃libc : Libc⦄ (n : ℕ) (most : n ≤ int32_max) (behind : Bytes) (next : ℕ) (memory : Bytes)
    (known : behind ≡ next ∷ memory) where
  feed-Agrees :
      (eof : Bool) (buffer : Bytes) (p : Feeder) (l : Bytes) (cr : Bool) (ls : List Bytes)
      → (cr ≡ true → 0 < length buffer)
      → Fed p (split_of l cr ls)
      → length l + 3 * length buffer ≤ n
      → Ends n (Agrees eof (split buffer (split_of l cr ls))) (feed eof behind buffer p)
  unfolding feed
  feed-Agrees eof buffer p l false ls some fed fits =
      let fed' : Fed (record p { ended_with_cr = false }) (split_of l false ls) = record {
        holds = fed.holds;
        cr_eq = refl;
        lines_eq = fed.lines_eq;
      } in
      rw (fed.cr_eq) (
        feed_loop-Agrees n most eof behind next memory known (length buffer + 1) buffer
          (record p { ended_with_cr = false }) l ls (omega arith) fed' fits)
  feed-Agrees eof [] p l true ls some fed fits = absurd (omega (arith, some refl))
  feed-Agrees eof (c ∷ s) p l true ls some fed fits =
      let fed' : Fed (record p { ended_with_cr = false }) (split_of l false ls) = record {
        holds = fed.holds;
        cr_eq = refl;
        lines_eq = fed.lines_eq;
      } in
      let shorter = skip_lf-length n most eof behind next memory known (c ∷ s) in
      rw (fed.cr_eq, split-skip_lf c s l ls)
        (feed_loop-Agrees n most eof behind next memory known (length (skip_lf (c ∷ s)) + 1)
          (skip_lf (c ∷ s)) (record p { ended_with_cr = false }) l ls (omega arith) fed'
          (omega (arith, shorter)))

  finish_line-flush :
      (p : Feeder) (t : Bytes) (cr : Bool) (ls : List Bytes)
      → Fed p (split_of t cr ls)
      → Ends n (λ q. q.processed ≡ with_text t ls) (finish_line p)
  unfolding finish_line process_line with_text
  finish_line-flush p [] cr ls fed =
      let no_text : (p.linebuf.size == 0) ≡ true = ground (arith, fed.holds.layout.size_eq) in
      rw no_text (done fed.lines_eq)
  finish_line-flush p (c ∷ t) cr ls fed =
      let some_text : (p.linebuf.size == 0) ≡ false = ground (arith, fed.holds.layout.size_eq) in
      rw (some_text, slice-Holds fed.holds)
        (bind_Returns (clear-Holds fed.holds)
          λ b held. done (ap (λ r. r ++ (c ∷ t) ∷ []) fed.lines_eq))

-- The state behind the pieces that `cmark_parser_feed` is given.
module _ ⦃libc : Libc⦄ (n : ℕ) (most : n ≤ int32_max) where
  feed_all-Fed :
      (cs : List Piece) (p : Feeder) (l : Bytes) (cr : Bool) (ls : List Bytes)
      → AllPieces cs
      → Fed p (split_of l cr ls)
      → length l + 3 * length (concat cs) ≤ n
      → Ends n (λ q. Fed q (split (concat cs) (split_of l cr ls))) (feed_all cs p)
  unfolding feed_all
  feed_all-Fed [] p l cr ls some fed fits = unfold split in done fed
  feed_all-Fed (c ∷ cs) p l cr ls (some, (next, memory, known), later) fed fits =
      let sizes = length-append c.text (concat cs) in
      bind
        (feed-Agrees n most c.behind next memory known false c.text p l cr ls (λ e. some) fed
          (omega (arith, sizes)))
        (omega arith)
        λ q a.
          let st = split c.text (split_of l cr ls) in
          let fed' : Fed q st = subst (Fed q) (a.same_state refl) a.fed in
          rw (split-append c.text (concat cs) (split_of l cr ls)) (
            feed_all-Fed cs q st.text st.cr st.lines later fed'
              (omega (arith, sizes, split-length c.text (split_of l cr ls), fits)))

module _ ⦃libc : Libc⦄ where
  -- For a text whose triple length is no more than INT32_MAX, and with any byte behind it, the feeding
  -- of cmark_parse_document calls S_process_line on the lines of the text, in order: the bytes between
  -- line ends, each of which is a line feed, a carriage return or both, with U+FFFD for every NUL, and
  -- with what follows the last line end if that is not empty. Otherwise memory runs out, or the code
  -- aborts on a length past its limit.
  pub feed_document-document_lines :
      (text : Bytes) (next : ℕ) (memory : Bytes)
      → 3 * length text ≤ int32_max
      → Ends
          (3 * length text)
          (λ q. q.processed ≡ document_lines text)
          (feed_document (next ∷ memory) text)
  unfolding feed_document document_lines
  feed_document-document_lines text next memory fits =
      let n = 3 * length text in
      let behind : Bytes = next ∷ memory in
      bind
        (feed-Agrees n fits behind next memory refl true text new_feeder [] false [] (λ e. cc)
          new_feeder-Fed (omega arith))
        (omega arith)
        λ p a.
          mono
            (finish_line-flush n fits behind next memory refl p a.now.text a.now.cr a.now.lines
              a.fed)
            (omega arith) λ q e. e ∙ a.same_lines

  -- For a text whose triple length is no more than INT32_MAX, that is given to cmark_parser_feed in
  -- pieces of at least one byte, each with memory of its own behind it of at least one byte, the
  -- calls and cmark_parser_finish after them call S_process_line on the lines of the whole text, in
  -- order, wherever it is cut. Otherwise memory runs out, or the code aborts on a length past its
  -- limit.
  pub feed_all-document_lines :
      (pieces : List Piece)
      → AllPieces pieces
      → 3 * length (concat pieces) ≤ int32_max
      → Ends
          (3 * length (concat pieces))
          (λ q. q.processed ≡ document_lines (concat pieces))
          (feed_all pieces new_feeder >>= finish_line)
  unfolding document_lines
  feed_all-document_lines pieces some fits =
      let n = 3 * length (concat pieces) in
      let st = split (concat pieces) (split_of [] false []) in
      bind (feed_all-Fed n fits pieces new_feeder [] false [] some new_feeder-Fed (omega arith))
        (omega arith)
        λ p fed. finish_line-flush n fits (0 ∷ []) 0 [] refl p st.text st.cr st.lines fed
