-- ===== src/Buffer/Layout/Grow.antt =====
-- `cmark_strbuf_grow` keeps the bytes and makes room.
use cmark.Prelude.{
  ℕ, ◌+◌, ◌/◌, ◌%◌, ◌≤◌, ◌<◌, ◌≡◌, inl, inr, refl, sym, ap, ◌∙◌, [], ◌∷◌, ◌++◌, append_assoc, true,
  ◌==◌, ltb, if◌then◌else◌, Bool-cases, Option-cases, length, length-append, Bytes, ok, ◌>>=◌,
  arith,
}
use cmark.Alloc.{Libc, xrealloc}
use cmark.Buffer.{Strbuf, half_max, round_up, grow}
use cmark.Buffer.Layout.{Layout, Ends, done, no_memory, too_long}

-- The new capacity is a multiple of 8, larger than asked for, and within `int32_t`.
pub round_up_bounds :
    (n : ℕ) → (n < round_up n) × (round_up n ≤ n + n / 2 + 8) × (round_up n % 8 ≡ 0)
unfolding round_up
round_up_bounds n = omega arith

-- The buffer `b` holds `s` in memory of more than `target` bytes, all its own.
pub record Grown (s : Bytes) (target : ℕ) (b : Strbuf) : Type 0 where
  pub rest : Bytes
  pub layout : Layout b s rest
  pub above : target < b.asize
  pub own : b.asize ≡ length b.ptr

pub nil_of_length : (s : Bytes) → length s ≡ 0 → s ≡ []
nil_of_length [] h = refl
nil_of_length (c ∷ s) h = absurd (omega arith)

-- The memory handed to `realloc`: none for the static byte, else the whole allocation.
old_memory :
    {b : Strbuf} {s rest : Bytes}
    → Layout b s rest
    → (old : Bytes) × ((if b.asize == 0 then [] else b.ptr) ≡ s ++ old)
      × (length (s ++ old) ≤ b.asize)
old_memory {b} {s} {rest} l = elim (Bool-cases (b.asize == 0)) [
  | inl nothing ↦
      let short : length s ≡ 0 =
        ground (arith, ap length l.memory, length-append s rest, l.owned, l.room) in
      ([], rw nothing (rw (nil_of_length s short) refl), rw (nil_of_length s short) (omega arith))
  | inr own ↦ (rest, rw own l.memory, ground (arith, ap length l.memory, l.owned))
]

module _ ⦃libc : Libc⦄ where
  -- A reallocation of memory that starts with `s`.
  grow-realloc :
      (b : Strbuf) (s old : Bytes) (target : ℕ)
      → b.size ≡ length s
      → length (s ++ old) ≤ target
      → target ≤ half_max
      → Ends target (Grown s target) (
          xrealloc (s ++ old) (round_up target) >>= λ q.
          ok (record b { ptr = q; asize = round_up target }))
  unfolding xrealloc
  grow-realloc b s old target e fits small =
      elim (Option-cases (libc.realloc (s ++ old) (round_up target))) [
        | inl failed ↦ rw (failed, xrealloc) no_memory
        | inr (q, got) ↦
            let up = round_up_bounds target in
            let (added, is, long) =
              libc.realloc_grows (s ++ old) (round_up target) q (omega (arith, up)) got in
            let same : q ≡ s ++ (old ++ added) = is ∙ append_assoc s old added in
            rw (got, xrealloc)
              (done (record {
                rest = old ++ added;
                layout = record {
                  memory = same;
                  size_eq = e;
                  room = omega (
                    arith,
                    length-append s old,
                    length-append s (old ++ added),
                    ap length same,
                    long,
                    up,
                  );
                  owned = inl (sym long);
                  bounded = omega (arith, up);
                };
                above = up.0;
                own = sym long;
              }))
      ]

  -- Growing a buffer to a positive size that is no less than what it holds keeps its bytes and
  -- leaves an allocation of its own of more than that size, and of at most 1610612744 bytes. Other
  -- outcomes are only that memory runs out, or that the code aborts on a size past its limit.
  pub grow-Grown :
      {b : Strbuf} {s rest : Bytes} (target : ℕ)
      → Layout b s rest
      → length s ≤ target
      → 0 < target
      → Ends target (Grown s target) (grow b target)
  unfolding grow
  grow-Grown {b} {s} {rest} target l fits pos =
      let asked : ltb 0 target ≡ true = ground arith in
      rw asked (elim (Bool-cases (ltb target b.asize)) [
        | inl enough ↦ rw enough (
            done (record {
              rest = rest;
              layout = l;
              above = ground arith;
              own = ground (arith, l.owned);
            }))
        | inr short ↦ rw short (elim (Bool-cases (ltb half_max target)) [
          | inl large ↦ rw large (too_long (ground arith))
          | inr small ↦
              let (old, is, within) = old_memory l in
              rw (small, is) (grow-realloc b s old target l.size_eq (ground arith) (ground arith))
        ])
      ])
