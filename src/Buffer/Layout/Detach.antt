-- ===== src/Buffer/Layout/Detach.antt =====
-- `cmark_strbuf_detach` hands over the text that a buffer holds.
use cmark.Prelude.{
  ◌≡◌, ◌++◌, ◌∷◌, [], ◌==◌, inl, inr, ap, arith, Bytes, length, length-append, Bool-cases,
  Option-cases,
}
use cmark.Alloc.{Libc, xcalloc}
use cmark.Buffer.{Strbuf, init, detach}
use cmark.Buffer.Layout.{Holds, Ends, done, no_memory}
use cmark.Buffer.Layout.Grow.{nil_of_length}

module _ ⦃libc : Libc⦄ where
  pub detach-Holds :
      {b : Strbuf} {s : Bytes}
      → Holds b s
      → Ends 0 (λ r. (junk : Bytes) × (r.0 ≡ s ++ 0 ∷ junk)) (detach b)
  unfolding detach init xcalloc
  detach-Holds {b} {s} h = elim (Bool-cases (b.asize == 0)) [
    | inr own ↦ rw own (done (h.junk, h.layout.memory))
    | inl static ↦
        let e : s ≡ [] = nil_of_length s (
          ground
            (arith, h.layout.owned, ap length h.layout.memory, length-append s (0 ∷ h.junk))) in
        rw (static, e)
          (elim (Option-cases (libc.calloc 1)) [
            | inl failed ↦ rw (failed, xcalloc) no_memory
            | inr (q, given) ↦ rw (given, xcalloc) (done ([], libc.calloc_clears 1 q given))
          ])
  ]
