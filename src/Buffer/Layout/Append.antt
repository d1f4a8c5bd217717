-- ===== src/Buffer/Layout/Append.antt =====
-- `cmark_strbuf_put` and `cmark_strbuf_putc` append to what the buffer holds.
use cmark.Prelude.{
  ℕ, ◌+◌, ◌≤◌, ◌<◌, ◌≡◌, inl, refl, sym, ap, ◌∙◌, [], ◌∷◌, ◌++◌, append_assoc, append-nil, true,
  leb, length, length-append, Bytes, store, copy_in, copy_in-append, store-append, drop-cons,
  length-drop, low_bits, Run, ok, ◌>>=◌, arith,
}
use cmark.Alloc.{Libc}
use cmark.Buffer.{Strbuf, int32_max, grow_by, put, putc}
use cmark.Buffer.Layout.{Layout, Holds, Ends, done, bind}
use cmark.Buffer.Layout.Grow.{Grown, grow-Grown}

-- Writing `d` and a terminator behind `s`, where the memory has room.
pub write_end :
    (b : Strbuf) (s rest d : Bytes) (B : Type 0) (k : Bytes → Run B)
    → b.ptr ≡ s ++ rest
    → b.size ≡ length s
    → length d < length rest
    → (junk : Bytes) × ((copy_in b.ptr b.size d >>= λ p. store p (b.size + length d) 0 >>= k)
        ≡ k ((s ++ d) ++ 0 ∷ junk))
      × (length ((s ++ d) ++ 0 ∷ junk) ≡ length b.ptr)
write_end b s rest d B k m e h =
    let (c, junk, split) = drop-cons (length d) rest h in
    (
      junk,
      rw
          (
            m,
            e,
            copy_in-append s rest d (omega arith),
            split,
            ← append_assoc s d (c ∷ junk),
            ← length-append s d,
          )
          (ap (λ r. r >>= k) (store-append (s ++ d) junk c 0)),
      omega (
        arith,
        ap length m,
        length-append s rest,
        length-append (s ++ d) (0 ∷ junk),
        length-append s d,
        length-drop (length d) rest,
        ap length split,
      ),
    )

two_cells : (r : Bytes) → 1 < length r → (x : ℕ) × (y : ℕ) × (junk : Bytes) × (r ≡ x ∷ y ∷ junk)
two_cells [] h = elim h [ ]
two_cells (x ∷ []) h = absurd (omega arith)
two_cells (x ∷ y ∷ r) h = (x, y, r, refl)

-- Writing one byte and a terminator behind `s`.
write_byte :
    (b : Strbuf) (s junk : Bytes) (x y v : ℕ) (B : Type 0) (k : Bytes → Run B)
    → b.ptr ≡ s ++ x ∷ y ∷ junk
    → b.size ≡ length s
    → (store b.ptr b.size v >>= λ p. store p (b.size + 1) 0 >>= k) ≡ k ((s ++ v ∷ []) ++ 0 ∷ junk)
write_byte b s junk x y v B k m e =
    let shift : length s + 1 ≡ length (s ++ v ∷ []) = omega (arith, length-append s (v ∷ [])) in
    rw (m, e)
      (ap (λ r. r >>= λ p. store p (length s + 1) 0 >>= k) (store-append s (y ∷ junk) x v)
        ∙ rw (shift, ← append_assoc s (v ∷ []) (y ∷ junk))
            (ap (λ r. r >>= k) (store-append (s ++ v ∷ []) junk y 0)))

-- The buffer with new memory that ends in the string and a terminator.
record Written (b : Strbuf) (s : Bytes) (p : Bytes) : Type 0 where
  junk : Bytes
  memory : p ≡ s ++ 0 ∷ junk
  long : length p ≡ length b.ptr

Written-Holds :
    {b : Strbuf} {old rest : Bytes} (s p : Bytes) (n : ℕ)
    → Layout b old rest
    → b.asize ≡ length b.ptr
    → Written b s p
    → n ≡ length s
    → Holds (record b { ptr = p; size = n }) s
Written-Holds s p n l own w e = record {
  junk = w.junk;
  layout = record {
    memory = w.memory;
    size_eq = e;
    room = omega arith;
    owned = inl (own ∙ sym w.long);
    bounded = l.bounded;
  };
}

module _ ⦃libc : Libc⦄ where
  grow_by-Grown :
      {b : Strbuf} {s rest : Bytes} (add : ℕ)
      → Layout b s rest
      → 0 < add
      → length s + add ≤ int32_max
      → Ends (length s + add) (Grown s (length s + add)) (grow_by b add)
  unfolding grow_by
  grow_by-Grown {b} {s} add l pos fits =
      let within : leb (b.size + add) int32_max ≡ true = ground (arith, l.size_eq) in
      let same : b.size + add ≡ length s + add = omega (arith, l.size_eq) in
      rw (within, same) (grow-Grown (length s + add) l (omega arith) (omega arith))

  -- Appending at least one byte to any laid out buffer, terminated or not.
  pub put-cons :
      {b : Strbuf} {s rest : Bytes} (c : ℕ) (cs : Bytes)
      → Layout b s rest
      → length s + length (c ∷ cs) ≤ int32_max
      → Ends (length s + length (c ∷ cs)) (λ b'. Holds b' (s ++ c ∷ cs)) (put b (c ∷ cs))
  unfolding put
  put-cons {b} {s} c cs l fits =
      bind (grow_by-Grown (length (c ∷ cs)) l (omega arith) fits) (omega arith) λ b' g.
        let (junk, is, long) =
          write_end b' s g.rest (c ∷ cs) Strbuf
            (λ q. ok (record b' { ptr = q; size = b'.size + length (c ∷ cs) })) g.layout.memory
            g.layout.size_eq
            (ground (arith, g.above, g.own, ap length g.layout.memory, length-append s g.rest)) in
        rw is (
          done (
            Written-Holds {b = b'} (s ++ c ∷ cs) _ _ g.layout g.own
              (record { junk = junk; memory = refl; long = long })
              (omega (arith, g.layout.size_eq, length-append s (c ∷ cs)))))

  -- cmark_strbuf_put appends the data to what a buffer holds, and a terminator behind it, where the
  -- whole stays within the range of int32_t. Other outcomes are only that memory runs out, or that
  -- the code aborts on a length past its limit.
  pub put-Holds :
      {b : Strbuf} {s : Bytes} (d : Bytes)
      → Holds b s
      → length s + length d ≤ int32_max
      → Ends (length s + length d) (λ b'. Holds b' (s ++ d)) (put b d)
  unfolding put
  put-Holds {s} [] h fits = rw append-nil (done h)
  put-Holds (c ∷ cs) h fits = put-cons c cs h.layout fits

  -- cmark_strbuf_putc appends the low eight bits of its argument to what a buffer holds, and a
  -- terminator behind them, where the whole stays within the range of int32_t. Other outcomes are
  -- only that memory runs out, or that the code aborts on a length past its limit.
  pub putc-Holds :
      {b : Strbuf} {s : Bytes} (c : ℕ)
      → Holds b s
      → length s + 1 ≤ int32_max
      → Ends (length s + 1) (λ b'. Holds b' (s ++ low_bits c 8 ∷ [])) (putc b c)
  unfolding putc
  putc-Holds {b} {s} c h fits =
      bind (grow_by-Grown 1 h.layout (omega arith) fits) (omega arith) λ b' g.
        let (x, y, junk, split) =
          two_cells g.rest
            (omega (arith, g.above, g.own, ap length g.layout.memory, length-append s g.rest)) in
        let at_ptr : b'.ptr ≡ s ++ x ∷ y ∷ junk = rw (← split) g.layout.memory in
        let v = low_bits c 8 in
        let written =
          Written-Holds {b = b'} (s ++ v ∷ []) ((s ++ v ∷ []) ++ 0 ∷ junk) (b'.size + 1) g.layout
            g.own
            (record {
              junk = junk;
              memory = refl;
              long = omega (
                arith,
                ap length at_ptr,
                length-append s (x ∷ y ∷ junk),
                length-append s (v ∷ []),
                length-append (s ++ v ∷ []) (0 ∷ junk),
              );
            })
            (omega (arith, g.layout.size_eq, length-append s (v ∷ []))) in
        rw
          (write_byte b' s junk x y v Strbuf (λ q. ok (record b' { ptr = q; size = b'.size + 1 }))
            at_ptr g.layout.size_eq)
          (done written)
