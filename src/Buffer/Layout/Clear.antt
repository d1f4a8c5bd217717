-- ===== src/Buffer/Layout/Clear.antt =====
-- `cmark_strbuf_clear` leaves an empty text.
use cmark.Prelude.{
  ℕ, suc, ◌<◌, ◌≡◌, inl, inr, refl, ap, ◌∙◌, [], ◌∷◌, ltb, true, false, length, length-append,
  Bytes, Returns, returns, arith,
}
use cmark.Alloc.{Libc}
use cmark.Buffer.{Strbuf, clear}
use cmark.Buffer.Layout.{Holds}

-- The first byte of a memory that is not empty.
first_of_memory : (p : Bytes) → 0 < length p → (c : ℕ) × (r : Bytes) × (p ≡ c ∷ r)
first_of_memory [] h = elim h [ ]
first_of_memory (c ∷ r) h = (c, r, refl)

module _ ⦃libc : Libc⦄ where
  pub clear-Holds : {b : Strbuf} {s : Bytes} → Holds b s → Returns (λ b'. Holds b' []) (clear b)
  unfolding clear
  clear-Holds {b} {s} h = elim h.layout.owned [
    | inl own ↦
        let size = ap length h.layout.memory ∙ length-append s (0 ∷ h.junk) in
        let (c, r, e) = first_of_memory b.ptr (omega (arith, size)) in
        let some_size : ltb 0 b.asize ≡ true = ground (arith, size, own) in
        let inside : ltb 0 (suc (length r)) ≡ true = ground arith in
        rw (some_size, e, inside)
          (returns (record {
            junk = r;
            layout = record {
              memory = refl;
              size_eq = refl;
              room = omega arith;
              owned = inl (own ∙ ap length e);
              bounded = h.layout.bounded;
            };
          }))
    | inr (none, static) ↦
        let no_size : ltb 0 b.asize ≡ false = ground arith in
        rw no_size (
          returns (record {
            junk = [];
            layout = record {
              memory = static;
              size_eq = refl;
              room = omega arith;
              owned = inr (none, static);
              bounded = h.layout.bounded;
            };
          }))
  ]
