-- ===== src/Render.antt =====
-- What the renderers xml.c and html.c share. A document is the store of links with the other fields of each node; the
-- type of a node is the one that its fields have. The output of an event is a list of calls of the operations on the
-- buffer, which are then made one after the other. The loop over the iterator has fuel for its rounds.
use cmark.Prelude.{
  ℕ, zero, suc, ◌+◌, ◌-◌, Bool, true, false, Option, none, some, List, [], ◌∷◌, ◌++◌, ◌==◌,
  if◌then◌else◌, Bytes, load, slice, codes, Run, ok, fault, out_of_fuel, ◌>>=◌,
}
use cmark.Alloc.{Libc}
use cmark.Buffer.{Strbuf, put, puts, putc, detach}
use cmark.Chunk.{Chunk, memory_of}
use cmark.Houdini.{escape_html0, escape_href}
use cmark.Node.{Ptr, Links}
use cmark.Node.Content.{Node}
use cmark.Iterator.{EventType, event_none, event_done, enter, exit, State, Iter, iter_next}
pub mod Written
pub mod Events
pub mod Trees

pub record Document : Type 0 where
  pub links : Links
  pub nodes : Ptr → Node

abbrev pub tree_of : Document → Links
tree_of doc = record doc.links { type = λ p. (doc.nodes p).type }

pub data Call : Type 0 where
  put_char : ℕ → Call
  put_string : Bytes → Call
  put_chunk : Chunk → Call
  put_html : Chunk → Call
  put_href : Chunk → Call
  put_cr : Call

-- The bytes from `data` that a loop over `len` reads.
unfoldable pub chunk_text : Chunk → Run Bytes
chunk_text c = if c.len == 0 then ok [] else memory_of c.bytes >>= λ m. slice m 0 c.len

module _ ⦃libc : Libc⦄ where
  -- `if (html->size && html->ptr[html->size - 1] != '\n') cmark_strbuf_putc(html, '\n');`
  unfoldable pub cr : Strbuf → Run Strbuf
  cr html =
      if html.size == 0
      then ok html
      else load html.ptr (html.size - 1) >>= λ c. if c == 10 then ok html else putc html 10

  unfoldable pub perform : Call → Strbuf → Run Strbuf
  perform (put_char c) b = putc b c
  perform (put_string s) b = puts b s
  perform (put_chunk c) b = chunk_text c >>= λ d. put b d
  perform (put_html c) b = chunk_text c >>= λ d. escape_html0 b d false
  perform (put_href c) b = chunk_text c >>= λ d. escape_href b d
  perform put_cr b = cr b

  unfoldable pub perform_all : List Call → Strbuf → Run Strbuf
  perform_all [] b = ok b
  perform_all (c ∷ cs) b = perform c b >>= λ b'. perform_all cs b'

unfoldable pub is_done : EventType → Bool
is_done event_done = true
is_done _ = false

unfoldable pub is_enter : EventType → Bool
is_enter enter = true
is_enter _ = false

-- The loop `while ((ev_type = cmark_iter_next(iter)) != CMARK_EVENT_DONE)`, for a renderer with the state `S`.
module _ ⦃libc : Libc⦄ {S : Type 0} (render_node : EventType → Ptr → S → Run (List Call × S)) where
  unfoldable pub render_loop : ℕ → Links → Iter → S → Strbuf → Run Strbuf
  render_loop zero s iter state b = out_of_fuel
  render_loop (suc fuel) s iter state b = iter_next s iter >>= λ r.
      if is_done r.0
      then ok b
      else (render_node r.0 r.1.cur.node state >>= λ q.
          perform_all q.0 b >>= λ b'. render_loop fuel s r.1 q.1 b')

  -- The loop with what surrounds it: following a null iterator is a fault, and the text is handed over
  -- with its terminator.
  unfoldable pub render_events : ℕ → Links → Option Iter → S → Strbuf → Run Bytes
  unfolding render_loop
  render_events fuel s none state b = fault
  render_events fuel s (some iter) state b = do
    b' ← render_loop fuel s iter state b
    r ← detach b'
    ok r.0
