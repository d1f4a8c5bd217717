-- ===== src/Render/Written.antt =====
-- The text that the calls of a renderer write.
use cmark.Prelude.{
  ℕ, ◌+◌, ◌-◌, ◌≤◌, ◌≡◌, refl, ap, ◌∙◌, inl, inr, Bool, true, false, List, [], ◌∷◌, ◌++◌,
  append_assoc, append-nil, ◌==◌, if◌then◌else◌, length, length-append, Bytes, load, load-append,
  low_bits, Bool-cases, ok, aborted, fault, out_of_fuel, arith,
}
use cmark.Alloc.{Libc}
use cmark.Buffer.{Strbuf, int32_max, puts}
use cmark.Buffer.Layout.{Holds, Ends, done, bind}
use cmark.Buffer.Layout.Append.{put-Holds, putc-Holds}
use cmark.Chunk.{Chunk}
use cmark.Utf8.Valid.All.{AllBytes}
use cmark.Houdini.Html.{html_escaped, escape_html0-escaped}
use cmark.Houdini.Href.{href_escaped, escape_href-escaped}
use cmark.Render.{
  Call, put_char, put_string, put_chunk, put_html, put_href, put_cr, chunk_text, cr, perform,
  perform_all,
}

-- A text that `cr` adds nothing to.
unfoldable pub at_line_start : Bytes → Bool
at_line_start [] = true
at_line_start (c ∷ []) = c == 10
at_line_start (c ∷ d ∷ s) = at_line_start (d ∷ s)

-- The text of a chunk, or nothing where it cannot be read.
unfoldable pub text_of : Chunk → Bytes
text_of c = elim (chunk_text c) [ ok d ↦ d | aborted e ↦ [] | fault ↦ [] | out_of_fuel ↦ [] ]

-- What a call adds behind the text `s`.
unfoldable pub added : Call → Bytes → Bytes
added (put_char c) s = low_bits c 8 ∷ []
added (put_string t) s = t
added (put_chunk c) s = text_of c
added (put_html c) s = html_escaped false (text_of c)
added (put_href c) s = href_escaped (text_of c)
added put_cr s = if at_line_start s then [] else (10 ∷ [])

unfoldable pub written : List Call → Bytes → Bytes
written [] s = s
written (c ∷ cs) s = written cs (s ++ added c s)

-- The chunks that are put can be read.
abbrev pub IsReadable : Chunk → Type 0
IsReadable c = (chunk_text c ≡ ok (text_of c)) × AllBytes (text_of c)

abbrev pub CanPut : Call → Type 0
CanPut (put_chunk c) = IsReadable c
CanPut (put_html c) = IsReadable c
CanPut (put_href c) = IsReadable c
CanPut _ = Unit {0}

abbrev pub AllPut : List Call → Type 0
AllPut [] = Unit {0}
AllPut (c ∷ cs) = CanPut c × AllPut cs

pub written-append :
    (cs ds : List Call) (s : Bytes) → written (cs ++ ds) s ≡ written ds (written cs s)
unfolding written
written-append [] ds s = refl
written-append (c ∷ cs) ds s = written-append cs ds (s ++ added c s)

pub length-written : (cs : List Call) (s : Bytes) → length s ≤ length (written cs s)
unfolding written
length-written [] s = omega arith
length-written (c ∷ cs) s =
    omega (arith, length-written cs (s ++ added c s), length-append s (added c s))

-- The last byte of a text, which decides what `cr` does.
last_byte :
    (c : ℕ) (s : Bytes)
    → (t : Bytes) × (x : ℕ) × (c ∷ s ≡ t ++ x ∷ []) × (at_line_start (c ∷ s) ≡ (x == 10))
unfolding at_line_start
last_byte c [] = ([], c, refl, refl)
last_byte c (d ∷ s) = let (t, x, e, f) = last_byte d s in (c ∷ t, x, ap (λ r. c ∷ r) e, f)

module _ ⦃libc : Libc⦄ where
  cr-added :
      (b : Strbuf) (s : Bytes)
      → Holds b s
      → length s + length (added put_cr s) ≤ int32_max
      → Ends (length s + length (added put_cr s)) (λ b'. Holds b' (s ++ added put_cr s)) (cr b)
  unfolding cr added
  cr-added b [] h fits =
      let no_size : (b.size == 0) ≡ true = ground (arith, h.layout.size_eq) in
      unfold at_line_start in rw no_size (done h)
  cr-added b (c ∷ s) h fits =
      let (t, x, e, f) = last_byte c s in
      let some_size : (b.size == 0) ≡ false = ground (arith, h.layout.size_eq) in
      let place : b.size - 1 ≡ length t =
        omega (arith, h.layout.size_eq, ap length e, length-append t (x ∷ [])) in
      let memory : b.ptr ≡ t ++ x ∷ 0 ∷ h.junk =
        h.layout.memory ∙ ap (λ r. r ++ 0 ∷ h.junk) e ∙ append_assoc t (x ∷ []) (0 ∷ h.junk) in
      let last : load b.ptr (b.size - 1) ≡ ok x =
        rw (memory, place) (load-append t (0 ∷ h.junk) x) in
      rw (some_size, last, f)
        (elim (Bool-cases (x == 10)) [
          | inl line ↦ rw (line, append-nil) (done h)
          | inr other ↦ rw other (putc-Holds 10 h (rw (f, other) at fits))
        ])

  perform-added :
      (c : Call) (b : Strbuf) (s : Bytes)
      → CanPut c
      → Holds b s
      → length s + length (added c s) ≤ int32_max
      → Ends (length s + length (added c s)) (λ b'. Holds b' (s ++ added c s)) (perform c b)
  unfolding perform added puts
  perform-added (put_char c) b s can h fits = putc-Holds c h fits
  perform-added (put_string t) b s can h fits = put-Holds t h fits
  perform-added (put_chunk c) b s can h fits = rw (can.0) (put-Holds (text_of c) h fits)
  perform-added (put_html c) b s can h fits =
      rw (can.0) (escape_html0-escaped false b s (text_of c) h can.1 fits)
  perform-added (put_href c) b s can h fits =
      rw (can.0) (escape_href-escaped b s (text_of c) h can.1 fits)
  perform-added put_cr b s can h fits = cr-added b s h fits

  -- The calls write their texts, where the whole fits.
  pub perform_all-written :
      (cs : List Call) (b : Strbuf) (s : Bytes)
      → AllPut cs
      → Holds b s
      → length (written cs s) ≤ int32_max
      → Ends (length (written cs s)) (λ b'. Holds b' (written cs s)) (perform_all cs b)
  unfolding perform_all written
  perform_all-written [] b s can h fits = done h
  perform_all-written (c ∷ cs) b s can h fits =
      let grows = length-written cs (s ++ added c s) in
      let joined = length-append s (added c s) in
      bind (perform-added c b s can.0 h (omega (arith, fits, grows, joined)))
        (omega (arith, grows, joined))
        λ b' h'. perform_all-written cs b' (s ++ added c s) can.1 h' fits
