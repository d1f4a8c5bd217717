-- ===== src/Buffer/Cut/Laws.antt =====
-- What `cmark_strbuf_truncate`, `_drop`, `_rtrim` and `_trim` leave in a buffer.
use cmark.Prelude.{
  Returns, returns, append_assoc, drop-cons, leb, ℕ, zero, suc, ◌+◌, ◌-◌, ◌≤◌, ◌<◌, ◌≡◌, inl, inr,
  refl, sym, ap, ◌∙◌, true, false, [], ◌∷◌, ◌++◌, ◌==◌, ltb, Bool-cases, length, length-append,
  take, drop as list_drop, Bytes, slice, copy_in, copy_in-append, drop-append, take-append,
  take-append-drop, length-take, length-drop, ok, ◌>>=◌, arith,
}
use cmark.Prelude.Int.{ℤ, pos, negsuc}
use cmark.Buffer.{Strbuf, end_at}
use cmark.Buffer.Layout.{Holds}
use cmark.Buffer.Layout.InPlace.{end_at-Holds, end_at-take}
use cmark.Buffer.Layout.Grow.{nil_of_length}
use cmark.Buffer.Cut.{truncate, drop, shift_down, drop_clipped}

-- A length that may be negative, cut off at zero.
abbrev pub clip : ℤ → ℕ
clip (pos n) = n
clip (negsuc n) = 0

pub take-all : (n : ℕ) (s : Bytes) → length s ≤ n → take n s ≡ s
take-all zero [] h = refl
take-all zero (x ∷ s) h = absurd (omega arith)
take-all (suc n) [] h = refl
take-all (suc n) (x ∷ s) h = ap (λ t. x ∷ t) (take-all n s (omega arith))

take-append_le : (n : ℕ) (s r : Bytes) → n ≤ length s → take n (s ++ r) ≡ take n s
take-append_le zero s r h = refl
take-append_le (suc n) [] r h = absurd (omega arith)
take-append_le (suc n) (x ∷ s) r h = ap (λ t. x ∷ t) (take-append_le n s r (omega arith))

slice-append : (s t r : Bytes) → slice (s ++ (t ++ r)) (length s) (length t) ≡ ok t
slice-append s t r =
    let fits : leb (length s + length t) (length (s ++ (t ++ r))) ≡ true =
      ground (arith, length-append s (t ++ r), length-append t r) in
    rw fits (ap (λ x. ok x) (ap (take (length t)) (drop-append s (t ++ r)) ∙ take-append t r))

module _ {b : Strbuf} {s : Bytes} (h : Holds b s) where
  length-ptr : length b.ptr ≡ length s + suc (length h.junk)
  length-ptr = ap length h.layout.memory ∙ length-append s (0 ∷ h.junk)

  -- Ending a held string earlier.
  pub end_at-Holds-take : (n : ℕ) → n ≤ length s → Returns (λ b'. Holds b' (take n s)) (end_at b n)
  end_at-Holds-take n le =
      let same : take n b.ptr ≡ take n s =
        rw h.layout.memory (take-append_le n s (0 ∷ h.junk) le) in
      rw (← same) (end_at-take b n (omega (arith, length-ptr)) h.layout.owned h.layout.bounded)

  truncate-pos : (n : ℕ) → Returns (λ b'. Holds b' (take n s)) (truncate b (pos n))
  unfolding truncate
  truncate-pos n = elim (Bool-cases (ltb n b.size)) [
    | inl less ↦ rw less (end_at-Holds-take n (ground (arith, h.layout.size_eq)))
    | inr enough ↦
        let whole = take-all n s (ground (arith, h.layout.size_eq)) in
        rw (enough, whole) (returns h)
  ]

  -- cmark_strbuf_truncate keeps the given number of bytes at the front of what a buffer holds, all
  -- of them where there are no more, and none for a negative number.
  pub truncate-take : (len : ℤ) → Returns (λ b'. Holds b' (take (clip len) s)) (truncate b len)
  truncate-take (pos n) = truncate-pos n
  truncate-take (negsuc n) = unfold truncate in truncate-pos 0

  -- The bytes behind the first ones are moved to the front.
  moved :
      (s₁ s₂ : Bytes)
      → s ≡ s₁ ++ s₂
      → (slice b.ptr (length s₁) (length s₂) >>= λ d. copy_in b.ptr 0 d)
        ≡ ok (s₂ ++ list_drop (length s₂) b.ptr)
  moved s₁ s₂ e =
      let here : b.ptr ≡ s₁ ++ (s₂ ++ 0 ∷ h.junk) =
        h.layout.memory ∙ rw e (append_assoc s₁ s₂ (0 ∷ h.junk)) in
      let read : slice b.ptr (length s₁) (length s₂) ≡ ok s₂ =
        rw here (slice-append s₁ s₂ (0 ∷ h.junk)) in
      rw read
        (copy_in-append [] b.ptr s₂ (omega (arith, length-ptr, ap length e, length-append s₁ s₂)))

  move_front :
      (s₁ s₂ : Bytes)
      → s ≡ s₁ ++ s₂
      → 0 < length s₂
      → Returns
          (λ b'. Holds b' s₂)
          (end_at (record b { ptr = s₂ ++ list_drop (length s₂) b.ptr }) (length s₂))
  move_front s₁ s₂ e nonempty =
      let less : length s₂ < length b.ptr =
        omega (arith, length-ptr, ap length e, length-append s₁ s₂) in
      let (c, junk, split) = drop-cons (length s₂) b.ptr less in
      let long : length (s₂ ++ c ∷ junk) ≡ length b.ptr =
        omega
          (arith, length-append s₂ (c ∷ junk), length-drop (length s₂) b.ptr, ap length split) in
      rw split (
        end_at-Holds (record b { ptr = s₂ ++ c ∷ junk }) s₂ junk c refl
          (elim h.layout.owned [
            | inl own ↦ inl (own ∙ sym long)
            | inr (z, static) ↦ absurd (omega (arith, ap length static))
          ])
          h.layout.bounded)

  -- The parts of the string before and behind `n`.
  shift_down-moved :
      (n : ℕ)
      → n ≤ length s
      → 0 < b.size - n
      → shift_down b.ptr n (b.size - n)
        ≡ ok (list_drop n s ++ list_drop (length (list_drop n s)) b.ptr)
  unfolding shift_down
  shift_down-moved n le some_left =
      let l₁ : length (take n s) ≡ n = omega (arith, length-take n s) in
      let l₂ : length (list_drop n s) ≡ b.size - n =
        omega (arith, length-drop n s, h.layout.size_eq) in
      let left : ((b.size - n) == 0) ≡ false = ground arith in
      let at_n = moved (take n s) (list_drop n s) (sym (take-append-drop n s)) in
      rw left (rw (l₁, l₂) at at_n ∙ rw l₂)

  drop_clipped-drop :
      (n : ℕ) → n ≤ length s → Returns (λ b'. Holds b' (list_drop n s)) (drop_clipped b n)
  drop_clipped-drop n le =
      let l₂ : length (list_drop n s) ≡ b.size - n =
        omega (arith, length-drop n s, h.layout.size_eq) in
      elim (Bool-cases ((b.size - n) == 0)) [
        | inl nothing ↦
            let none_left : list_drop n s ≡ [] = nil_of_length _ (ground arith) in
            let zero_left : b.size - n ≡ 0 = ground arith in
            unfold drop_clipped in rw (zero_left, none_left) (end_at-Holds-take 0 (omega arith))
        | inr some_left ↦
            unfold drop_clipped in
            rw (shift_down-moved n le (ground arith), ← l₂)
              (move_front (take n s) (list_drop n s) (sym (take-append-drop n s)) (ground arith))
      ]

  drop-pos : (n : ℕ) → Returns (λ b'. Holds b' (list_drop n s)) (drop b (pos n))
  unfolding drop
  drop-pos n = elim (Bool-cases (ltb 0 n)) [
    | inr zero_n ↦ let z : n ≡ 0 = ground arith in rw z (returns h)
    | inl some_n ↦ elim (Bool-cases (ltb b.size n)) [
      | inl over ↦
          let nothing : list_drop n s ≡ list_drop b.size s =
            nil_of_length _ (ground (arith, length-drop n s, h.layout.size_eq))
            ∙ sym (nil_of_length _ (omega (arith, length-drop b.size s, h.layout.size_eq))) in
          rw (some_n, over, nothing) (drop_clipped-drop b.size (omega (arith, h.layout.size_eq)))
      | inr within ↦ rw (some_n, within) (drop_clipped-drop n (ground (arith, h.layout.size_eq)))
    ]
  ]

  -- cmark_strbuf_drop removes the given number of bytes at the front of what a buffer holds, all of
  -- them where there are no more, and none for a negative number.
  pub drop-drop : (n : ℤ) → Returns (λ b'. Holds b' (list_drop (clip n) s)) (drop b n)
  drop-drop (pos n) = drop-pos n
  drop-drop (negsuc n) = unfold drop in returns h
