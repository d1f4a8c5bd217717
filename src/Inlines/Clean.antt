-- ===== src/Inlines/Clean.antt =====
-- inlines.c: `cmark_clean_url`, `cmark_clean_title` and the other functions that make a chunk of a
-- text as it is written. The chunk that is cleaned is trimmed on the way, so `clean_url` gives it
-- back as well. `entities` is the table of named entities.
use cmark.Prelude.{
  ℕ, ◌-◌, Bool, ◌&&◌, ◌||◌, List, [], ◌∷◌, ◌==◌, if◌then◌else◌, Bytes, load, slice, Run, ok, ◌>>=◌,
}
use cmark.Alloc.{Libc}
use cmark.Buffer.{empty, puts}
use cmark.Buffer.Rewrite.{unescape}
use cmark.Chunk.{Chunk, empty_chunk, memory_of, chunk_trim, buf_detach}
use cmark.Houdini.Unescape.{Entity, unescape_html_f}

module _ ⦃libc : Libc⦄ (entities : List Entity) where
  -- The common end: entities and backslashes are resolved in a new buffer, which becomes the chunk.
  unfoldable pub cleaned : Bytes → Run Chunk
  cleaned d = do
    buf ← unescape_html_f entities empty d
    buf' ← unescape buf
    r ← buf_detach buf'
    ok r.0

  -- The `len` bytes of a chunk, or those between its first and its last byte.
  unfoldable pub inside : Bytes → ℕ → Bool → Run Bytes
  inside m len stripped = if stripped then slice m 1 (len - 2) else slice m 0 len

  unfoldable pub clean_url : Chunk → Run (Chunk × Chunk)
  clean_url url = chunk_trim url >>= λ c. if c.len == 0 then ok (empty_chunk, c) else do
    m ← memory_of c.bytes
    first ← load m 0
    last ← load m (c.len - 1)
    d ← inside m c.len (first == b'<' && last == b'>')
    result ← cleaned d
    ok (result, c)

  unfoldable pub clean_title : Chunk → Run Chunk
  clean_title title = if title.len == 0 then ok empty_chunk else do
    m ← memory_of title.bytes
    first ← load m 0
    last ← load m (title.len - 1)
    d ← inside m title.len (
        first == b'\'' && last == b'\''
        || first == b'(' && last == b')'
        || first == b'"' && last == b'"')
    cleaned d

  -- `cmark_clean_autolink`
  unfoldable pub clean_autolink : Chunk → Bool → Run (Chunk × Chunk)
  clean_autolink url is_email = chunk_trim url >>= λ c.
      if c.len == 0 then ok (empty_chunk, c) else do
        buf ←
            if is_email
            then puts empty (b'm' ∷ b'a' ∷ b'i' ∷ b'l' ∷ b't' ∷ b'o' ∷ b':' ∷ [])
            else ok empty
        m ← memory_of c.bytes
        d ← slice m 0 c.len
        buf' ← unescape_html_f entities buf d
        r ← buf_detach buf'
        ok (r.0, c)
