-- ===== src/Buffer/Rewrite/Whitespace.antt =====
-- What `cmark_strbuf_normalize_whitespace` leaves in a buffer.
use mathlib.Core.Path.{subst}
use native.Mathlib.Nat.{add-zero}
use cmark.Prelude.{
  Returns, take, take-append, ℕ, suc, ◌+◌, ◌≡◌, inl, inr, refl, sym, ap, ◌∙◌, Bool, true, false, [],
  ◌∷◌, ◌++◌, append_assoc, append-nil, if◌then◌else◌, Bool-cases, length, length-append, Bytes,
  load, store, load-append, store-append, Run, ok, ◌>>=◌, arith,
}
use cmark.Prelude.Int.{pos}
use cmark.Ctype.{is_space}
use cmark.Buffer.{Strbuf}
use cmark.Buffer.Layout.{Holds}
use cmark.Buffer.Cut.{truncate}
use cmark.Buffer.Cut.Laws.{truncate-take}
use cmark.Buffer.Layout.InPlace.{rewrite-Holds}
use cmark.Buffer.Rewrite.{normalize_step, normalize_loop, normalize_whitespace}

-- Every run of white space becomes one space. The flag says that white space stands just before.
unfoldable pub collapse : Bool → Bytes → Bytes
collapse last [] = []
collapse last (c ∷ cs) =
    let rest = collapse (is_space c) cs in
    if is_space c then (if last then rest else b' ' ∷ rest) else c ∷ rest

-- The bytes behind the write position after a byte is read and one is written.
close_gap : (gap : Bytes) (c : ℕ) → (x : ℕ) × (gap' : Bytes) × (gap ++ c ∷ [] ≡ x ∷ gap')
close_gap [] c = (c, [], refl)
close_gap (x ∷ gap) c = (x, gap ++ c ∷ [], refl)

-- A write at the end of `out` turns the first byte of the gap, with the byte just read at its end,
-- into output.
pub write_gap :
    (out gap ahead : Bytes) (c v : ℕ)
    → (gap' : Bytes) × (store (out ++ (gap ++ c ∷ ahead)) (length out) v
        ≡ ok ((out ++ v ∷ []) ++ (gap' ++ ahead)))
      × (length gap' ≡ length gap)
write_gap out gap ahead c v =
    let (x, gap', e) = close_gap gap c in
    let here : out ++ (gap ++ c ∷ ahead) ≡ out ++ x ∷ (gap' ++ ahead) =
      ap (λ t. out ++ t) (sym (append_assoc gap (c ∷ []) ahead) ∙ ap (λ t. t ++ ahead) e) in
    (
      gap',
      rw here (
          store-append out (gap' ++ ahead) x v
          ∙ ap (λ t. ok t) (sym (append_assoc out (v ∷ []) (gap' ++ ahead)))),
      omega (arith, ap length e, length-append gap (c ∷ [])),
    )

pub load_gap :
    (out gap ahead : Bytes) (c r : ℕ)
    → r ≡ length out + length gap
    → load (out ++ (gap ++ c ∷ ahead)) r ≡ ok c
load_gap out gap ahead c r e =
    let at_r : r ≡ length (out ++ gap) = omega (arith, e, length-append out gap) in
    rw (at_r, ← append_assoc out gap (c ∷ ahead)) (load-append (out ++ gap) ahead c)

-- The loop over `cs` has the normalised text as its output.
pub record Done (out cs junk : Bytes) (n : ℕ) (r : Run (ℕ × Bytes)) : Type 0 where
  pub w : ℕ
  pub gap : Bytes
  pub runs : r ≡ ok (w, (out ++ cs) ++ (gap ++ junk))
  pub at_end : w ≡ length (out ++ cs)
  pub long : length cs + length gap ≡ n

Done-cons :
    {out cs junk : Bytes} {n m : ℕ} {r : Run (ℕ × Bytes)} (v : ℕ)
    → suc n ≡ m
    → Done (out ++ v ∷ []) cs junk n r
    → Done out (v ∷ cs) junk m r
Done-cons {out} {cs} {junk} v e d =
    let joined : (out ++ v ∷ []) ++ cs ≡ out ++ v ∷ cs = append_assoc out (v ∷ []) cs in
    record {
      w = d.w;
      gap = d.gap;
      runs = d.runs ∙ ap (λ t. ok (d.w, t ++ (d.gap ++ junk))) joined;
      at_end = d.at_end ∙ ap length joined;
      long = omega (arith, d.long, e);
    }

pub widen :
    {out cs junk : Bytes} {n m : ℕ} {r : Run (ℕ × Bytes)}
    → n ≡ m
    → Done out cs junk n r
    → Done out cs junk m r
widen {out} {cs} {junk} {r} e d = subst (λ k. Done out cs junk k r) e d

-- The part of a loop behind a write of `v`, by what the rest of the loop does.
pub after_write :
    (out gap ahead : Bytes) (c v w : ℕ) (rest : Run Bytes → Run (ℕ × Bytes)) (cs junk : Bytes)
    (n m : ℕ)
    → w ≡ length out
    → suc n ≡ m
    → ((gap' : Bytes)
        → length gap' ≡ length gap
        → Done (out ++ v ∷ []) cs junk n (rest (ok ((out ++ v ∷ []) ++ (gap' ++ ahead)))))
    → Done out (v ∷ cs) junk m (rest (store (out ++ (gap ++ c ∷ ahead)) w v))
after_write out gap ahead c v w rest cs junk n m ew e next =
    let (gap', wrote, long) = write_gap out gap ahead c v in
    rw (ew, wrote) (Done-cons v e (next gap' long))

normalize_loop-collapse :
    (cs out gap junk : Bytes) (last : Bool) (r w : ℕ)
    → r ≡ length out + length gap
    → w ≡ length out
    → Done out
        (collapse last cs)
        junk
        (length cs + length gap)
        (normalize_loop (length cs) r w last (out ++ (gap ++ (cs ++ junk))))
unfolding normalize_loop normalize_step collapse
normalize_loop-collapse [] out gap junk last r w er ew = record {
  w = w;
  gap = gap;
  runs = rw append-nil;
  at_end = rw append-nil ew;
  long = omega arith;
}
normalize_loop-collapse (c ∷ cs) out gap junk last r w er ew =
    let shift : (v : ℕ) → length (out ++ v ∷ []) ≡ length out + 1 =
      λ v. omega (arith, length-append out (v ∷ [])) in
    let next : (v : ℕ) (flag : Bool) (gap' : Bytes)
        → length gap' ≡ length gap
        → Done (out ++ v ∷ []) (collapse flag cs) junk (length cs + length gap) (
            normalize_loop (length cs) (r + 1) (w + 1) flag
              ((out ++ v ∷ []) ++ (gap' ++ (cs ++ junk)))) =
      λ v flag gap' long. rw long at (
        normalize_loop-collapse cs (out ++ v ∷ []) gap' junk flag (r + 1) (w + 1)
          (omega (arith, shift v)) (omega (arith, shift v))) in
    let again_long : length cs + length (gap ++ c ∷ []) ≡ suc (length cs) + length gap =
      omega (arith, length-append gap (c ∷ [])) in
    let loop : Run (ℕ × Bool × Bytes) → Run (ℕ × Bytes) =
      λ m. m >>= λ x. normalize_loop (length cs) (r + 1) x.0 x.1 x.2 in
    rw (load_gap out gap (cs ++ junk) c r er) (elim (Bool-cases (is_space c)) [
      | inl space ↦ rw space (elim (Bool-cases last) [
        | inl again ↦ rw again (
            widen again_long (
              rw (append_assoc gap (c ∷ []) (cs ++ junk)) at (
                normalize_loop-collapse cs out (gap ++ c ∷ []) junk true (r + 1) w
                  (omega (arith, length-append gap (c ∷ []))) ew)))
        | inr first ↦ rw first (
            after_write out gap (cs ++ junk) c b' ' w (λ m. loop (m >>= λ q. ok (w + 1, true, q)))
              (collapse true cs) junk (length cs + length gap) _ ew (omega arith) (next b' ' true))
      ])
      | inr other ↦ rw other (
          after_write out gap (cs ++ junk) c c w (λ m. loop (m >>= λ q. ok (w + 1, false, q)))
            (collapse false cs) junk (length cs + length gap) _ ew (omega arith) (next c false))
    ])

-- The truncation behind a loop that has rewritten what the buffer holds.
pub Done-truncate :
    {b : Strbuf} {s t : Bytes} {r : Run (ℕ × Bytes)}
    → (h : Holds b s) → Done [] t (0 ∷ h.junk) (length s) r
    → Returns (λ b'. Holds b' t) (r >>= λ x. truncate (record b { ptr = x.1 }) (pos x.0))
Done-truncate {b} {s} {t} h d =
    let p = t ++ (d.gap ++ 0 ∷ h.junk) in
    let same : p ≡ (t ++ d.gap) ++ 0 ∷ h.junk = sym (append_assoc t d.gap (0 ∷ h.junk)) in
    let long : length (t ++ d.gap) ≡ length s = omega (arith, d.long, length-append t d.gap) in
    let whole = rewrite-Holds h (t ++ d.gap) p long same in
    let kept : take d.w (t ++ d.gap) ≡ t = rw d.at_end (take-append t d.gap) in
    rw d.runs (
      subst (λ u. Returns (λ b'. Holds b' u) (truncate (record b { ptr = p }) (pos d.w))) kept
        (truncate-take whole (pos d.w)))

-- cmark_strbuf_normalize_whitespace turns every run of white space of what a buffer holds into one
-- space, in place, and always returns.
pub normalize_whitespace-collapse :
    {b : Strbuf} {s : Bytes}
    → Holds b s
    → Returns (λ b'. Holds b' (collapse false s)) (normalize_whitespace b)
unfolding normalize_whitespace
normalize_whitespace-collapse {b} {s} h =
    let same : normalize_loop b.size 0 0 false b.ptr
        ≡ normalize_loop (length s) 0 0 false (s ++ 0 ∷ h.junk) =
      rw (h.layout.memory, h.layout.size_eq) in
    rw same (
      Done-truncate h (
        rw add-zero at (normalize_loop-collapse s [] [] (0 ∷ h.junk) false 0 0 (omega arith) refl)))
