-- ===== src/Buffer/Layout/InPlace.antt =====
-- Ending the string earlier in the memory that a buffer has.
use cmark.Prelude.{
  Returns, returns, ℕ, ◌≤◌, ◌<◌, ◌≡◌, inl, inr, refl, sym, ap, ◌∙◌, [], ◌∷◌, ◌++◌, length,
  length-append, take, drop, Bytes, store, store-append, drop-cons, take-append-drop, length-take,
  ok, arith,
}
use cmark.Buffer.{Strbuf, end_at}
use cmark.Buffer.Layout.{Holds, IsOwned, max_asize}

IsOwned-end :
    {n : ℕ} (s junk : Bytes) (c : ℕ) → IsOwned n (s ++ c ∷ junk) → IsOwned n (s ++ 0 ∷ junk)
IsOwned-end s junk c (inl e) =
    inl (omega (arith, length-append s (c ∷ junk), length-append s (0 ∷ junk)))
IsOwned-end [] junk c (inr (z, e)) = inr (z, ap (λ t. 0 ∷ drop 1 t) e)
IsOwned-end (x ∷ s) junk c (inr (z, e)) =
    absurd (omega (arith, ap length e, length-append s (c ∷ junk)))

-- Memory that starts with `s` and has one more byte becomes a buffer that holds `s`.
pub end_at-Holds :
    (b : Strbuf) (s junk : Bytes) (c : ℕ)
    → b.ptr ≡ s ++ c ∷ junk
    → IsOwned b.asize (s ++ c ∷ junk)
    → b.asize ≤ max_asize
    → Returns (λ b'. Holds b' s) (end_at b (length s))
unfolding end_at
end_at-Holds b s junk c m own small =
    let written : store b.ptr (length s) 0 ≡ ok (s ++ 0 ∷ junk) = rw m (store-append s junk c 0) in
    rw written (
      returns (record {
        junk = junk;
        layout = record {
          memory = refl;
          size_eq = refl;
          room = omega arith;
          owned = IsOwned-end s junk c own;
          bounded = small;
        };
      }))

-- A split of the memory at `n`, inside it.
pub split_at :
    (p : Bytes) (n : ℕ)
    → n < length p
    → (c : ℕ) × (junk : Bytes) × (p ≡ take n p ++ c ∷ junk) × (length (take n p) ≡ n)
split_at p n h =
    let (c, junk, e) = drop-cons n p h in
    (c, junk, sym (rw (← e) (take-append-drop n p)), omega (arith, length-take n p))

-- The string ends after the first `n` bytes of the memory.
pub end_at-take :
    (b : Strbuf) (n : ℕ)
    → n < length b.ptr
    → IsOwned b.asize b.ptr
    → b.asize ≤ max_asize
    → Returns (λ b'. Holds b' (take n b.ptr)) (end_at b n)
end_at-take b n h own small =
    let (c, junk, e, l) = split_at b.ptr n h in
    let own' : IsOwned b.asize (take n b.ptr ++ c ∷ junk) = rw (← e) own in
    rw l at (end_at-Holds b (take n b.ptr) junk c e own' small)

-- Rewriting the string in its place.
IsOwned-rewrite :
    {n : ℕ} (s u junk : Bytes)
    → length u ≡ length s
    → IsOwned n (s ++ 0 ∷ junk)
    → IsOwned n (u ++ 0 ∷ junk)
IsOwned-rewrite s u junk e (inl own) =
    inl (omega (arith, length-append s (0 ∷ junk), length-append u (0 ∷ junk)))
IsOwned-rewrite [] [] junk e (inr static) = inr static
IsOwned-rewrite [] (x ∷ u) junk e (inr static) = absurd (omega (arith, e))
IsOwned-rewrite (x ∷ s) u junk e (inr static) =
    absurd (omega (arith, ap length static.1, length-append s (0 ∷ junk)))

pub rewrite-Holds :
    {b : Strbuf} {s : Bytes} (h : Holds b s) (u p : Bytes)
    → length u ≡ length s
    → p ≡ u ++ 0 ∷ h.junk
    → Holds (record b { ptr = p }) u
rewrite-Holds {b} {s} h u p e m =
    let own : IsOwned b.asize (s ++ 0 ∷ h.junk) = rw (← h.layout.memory) h.layout.owned in
    let own' : IsOwned b.asize p = rw m (IsOwned-rewrite s u h.junk e own) in
    record {
      junk = h.junk;
      layout = record {
        memory = m;
        size_eq = h.layout.size_eq ∙ sym e;
        room = omega arith;
        owned = own';
        bounded = h.layout.bounded;
      };
    }
