-- ===== src/Buffer/Rewrite/Unescape.antt =====
-- What `cmark_strbuf_unescape` leaves in a buffer.
use native.Mathlib.Nat.{add-zero}
use cmark.Prelude.{
  Returns, ℕ, zero, suc, ◌+◌, ◌<◌, ◌≡◌, inl, inr, refl, sym, ap, ◌∙◌, true, false, ◌&&◌, [], ◌∷◌,
  ◌++◌, append_assoc, append-nil, ◌==◌, ltb, Bool-cases, length, length-append, Bytes, load, ok,
  ◌>>=◌, arith,
}
use cmark.Ctype.{is_punct}
use cmark.Buffer.{Strbuf}
use cmark.Buffer.Layout.{Holds}
use cmark.Buffer.Rewrite.{escapes_at, unescape_loop, unescape}
use cmark.Buffer.Rewrite.Whitespace.{Done, load_gap, after_write, widen, Done-truncate}

-- A backslash before a punctuation character is dropped, and that character is kept as it is.
unfoldable pub unescaped : Bytes → Bytes
unescaped [] = []
unescaped (c ∷ []) = c ∷ []
unescaped (c ∷ d ∷ cs) = elim (c == b'\\' && is_punct d) [
  | true ↦ d ∷ unescaped cs
  | false ↦ c ∷ unescaped (d ∷ cs)
]

unescaped-skip :
    (c d : ℕ) (cs : Bytes)
    → (c == b'\\' && is_punct d) ≡ true
    → unescaped (c ∷ d ∷ cs) ≡ d ∷ unescaped cs
unfolding unescaped
unescaped-skip c d cs h = rw (unescaped, h)

unescaped-plain :
    (c d : ℕ) (cs : Bytes)
    → (c == b'\\' && is_punct d) ≡ false
    → unescaped (c ∷ d ∷ cs) ≡ c ∷ unescaped (d ∷ cs)
unfolding unescaped
unescaped-plain c d cs h = rw (unescaped, h)

no_escape-zero : (c : ℕ) → (c == b'\\' && is_punct 0) ≡ false
unfolding is_punct
no_escape-zero c = ground arith

-- What the two reads of a round find.
escapes_at-read :
    (out gap ahead : Bytes) (c d r : ℕ)
    → r ≡ length out + length gap
    → escapes_at (out ++ (gap ++ c ∷ d ∷ ahead)) r ≡ ok (c == b'\\' && is_punct d)
unfolding escapes_at
escapes_at-read out gap ahead c d r e =
    let moved : gap ++ c ∷ d ∷ ahead ≡ (gap ++ c ∷ []) ++ d ∷ ahead =
      sym (append_assoc gap (c ∷ []) (d ∷ ahead)) in
    let behind : load (out ++ (gap ++ c ∷ d ∷ ahead)) (r + 1) ≡ ok d = rw moved (
      load_gap out (gap ++ c ∷ []) ahead d (r + 1)
        (omega (arith, e, length-append gap (c ∷ [])))) in
    rw (load_gap out gap (d ∷ ahead) c r e, behind)
      (elim (Bool-cases (c == b'\\')) [ inl slash ↦ rw slash | inr other ↦ rw other ])

-- A round that keeps the byte `c`, and one that keeps only the byte behind it.
module _ (size fuel : ℕ) (out gap ahead cs junk : Bytes) (c r w n m : ℕ)
    (er : r ≡ length out + length gap) (ew : w ≡ length out) (inside : r < size)
    (count : suc n ≡ m) where
  round-plain :
      escapes_at (out ++ (gap ++ c ∷ ahead)) r ≡ ok false
      → ((gap' : Bytes)
          → length gap' ≡ length gap
          → Done
              (out ++ c ∷ [])
              cs
              junk
              n
              (unescape_loop fuel size (r + 1) (w + 1) ((out ++ c ∷ []) ++ (gap' ++ ahead))))
      → Done out (c ∷ cs) junk m (unescape_loop (suc fuel) size r w (out ++ (gap ++ c ∷ ahead)))
  unfolding unescape_loop
  round-plain plain next =
      let more : ltb r size ≡ true = ground arith in
      rw (plain, more, load_gap out gap ahead c r er)
        (after_write out gap ahead c c w (λ q. q >>= λ p. unescape_loop fuel size (r + 1) (w + 1) p)
          cs junk n m ew count next)

  round-skip :
      (d : ℕ)
      → escapes_at (out ++ (gap ++ c ∷ d ∷ ahead)) r ≡ ok true
      → ((gap' : Bytes)
          → length gap' ≡ length gap + 1
          → Done
              (out ++ d ∷ [])
              cs
              junk
              n
              (unescape_loop fuel size (r + 1 + 1) (w + 1) ((out ++ d ∷ []) ++ (gap' ++ ahead))))
      → Done out (d ∷ cs) junk m (unescape_loop (suc fuel) size r w (out ++ (gap ++ c ∷ d ∷ ahead)))
  unfolding unescape_loop
  round-skip d skips next =
      let more : ltb r size ≡ true = ground arith in
      let wider : length (gap ++ c ∷ []) ≡ length gap + 1 =
        omega (arith, length-append gap (c ∷ [])) in
      let moved : gap ++ c ∷ d ∷ ahead ≡ (gap ++ c ∷ []) ++ d ∷ ahead =
        sym (append_assoc gap (c ∷ []) (d ∷ ahead)) in
      let skips' = rw moved at skips in
      rw moved (
        rw (skips', more, load_gap out (gap ++ c ∷ []) ahead d (r + 1) (omega (arith, er, wider)))
          (after_write out (gap ++ c ∷ []) ahead d d w
            (λ q. q >>= λ p. unescape_loop fuel size (r + 1 + 1) (w + 1) p) cs junk n m ew count
            λ gap' long. next gap' (long ∙ wider)))

unescape_loop-unescaped :
    (fuel : ℕ) (cs out gap junk : Bytes) (size r w : ℕ)
    → length cs < fuel
    → r ≡ length out + length gap
    → w ≡ length out
    → size ≡ r + length cs
    → Done out
        (unescaped cs)
        (0 ∷ junk)
        (length cs + length gap)
        (unescape_loop fuel size r w (out ++ (gap ++ (cs ++ 0 ∷ junk))))
unfolding unescaped
unescape_loop-unescaped zero cs out gap junk size r w enough er ew es = absurd (omega arith)
unescape_loop-unescaped (suc fuel) [] out gap junk size r w enough er ew es =
    let over : ltb r size ≡ false = ground arith in
    record {
      w = w;
      gap = gap;
      runs = unfold unescape_loop in rw over (rw append-nil);
      at_end = rw append-nil ew;
      long = omega arith;
    }
unescape_loop-unescaped (suc fuel) (c ∷ []) out gap junk size r w enough er ew es =
    let shift : length (out ++ c ∷ []) ≡ length out + 1 =
      omega (arith, length-append out (c ∷ [])) in
    round-plain size fuel out gap (0 ∷ junk) [] (0 ∷ junk) c r w (length gap) _ er ew
      (omega (arith, es)) (omega arith)
      (escapes_at-read out gap junk c 0 r er ∙ ap (λ x. ok x) (no_escape-zero c))
      λ gap' long. widen (omega (arith, long)) (
        unescape_loop-unescaped fuel [] (out ++ c ∷ []) gap' junk size (r + 1) (w + 1) (omega arith)
          (omega (arith, shift)) (omega (arith, shift)) (omega (arith, es)))
unescape_loop-unescaped (suc fuel) (c ∷ d ∷ cs) out gap junk size r w enough er ew es =
    let shift : (v : ℕ) → length (out ++ v ∷ []) ≡ length out + 1 =
      λ v. omega (arith, length-append out (v ∷ [])) in
    let read = escapes_at-read out gap (cs ++ 0 ∷ junk) c d r er in
    elim (Bool-cases (c == b'\\' && is_punct d)) [
      | inl skips ↦ rw (unescaped-skip c d cs skips) (
          round-skip size fuel out gap (cs ++ 0 ∷ junk) (unescaped cs) (0 ∷ junk) c r w
            (suc (length cs) + length gap) _ er ew (omega (arith, es)) (omega arith) d
            (read ∙ ap (λ x. ok x) skips)
            λ gap' long. widen (omega (arith, long)) (
              unescape_loop-unescaped fuel cs (out ++ d ∷ []) gap' junk size (r + 1 + 1) (w + 1)
                (omega arith) (omega (arith, shift d)) (omega (arith, shift d))
                (omega (arith, es))))
      | inr plain ↦ rw (unescaped-plain c d cs plain) (
          round-plain size fuel out gap (d ∷ cs ++ 0 ∷ junk) (unescaped (d ∷ cs)) (0 ∷ junk) c r w
            (suc (length cs) + length gap) _ er ew (omega (arith, es)) (omega arith)
            (read ∙ ap (λ x. ok x) plain)
            λ gap' long. widen (omega (arith, long)) (
              unescape_loop-unescaped fuel (d ∷ cs) (out ++ c ∷ []) gap' junk size (r + 1) (w + 1)
                (omega arith) (omega (arith, shift c)) (omega (arith, shift c))
                (omega (arith, es))))
    ]

-- cmark_strbuf_unescape drops every backslash that stands before a punctuation character and is not
-- itself escaped, in place, and always returns.
pub unescape-unescaped :
    {b : Strbuf} {s : Bytes} → Holds b s → Returns (λ b'. Holds b' (unescaped s)) (unescape b)
unfolding unescape
unescape-unescaped {b} {s} h =
    let same : unescape_loop (b.size + 1) b.size 0 0 b.ptr
        ≡ unescape_loop (length s + 1) (length s) 0 0 (s ++ 0 ∷ h.junk) =
      rw (h.layout.memory, h.layout.size_eq) in
    rw same (
      Done-truncate h (
        rw add-zero at (
          unescape_loop-unescaped (length s + 1) s [] [] h.junk (length s) 0 0 (omega arith)
            (omega arith) refl (omega arith))))
