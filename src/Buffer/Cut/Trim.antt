-- ===== src/Buffer/Cut/Trim.antt =====
-- What `cmark_strbuf_rtrim` and `_trim` leave in a buffer.
use mathlib.Core.Path.{subst}
use native.Mathlib.Nat.{zero-add}
use cmark.Prelude.{
  Returns, returns, Returns-bind, ℕ, zero, suc, ◌+◌, ◌≤◌, ◌≡◌, inl, inr, refl, sym, ap, ◌∙◌, [],
  ◌∷◌, ◌++◌, append_assoc, ◌==◌, if◌then◌else◌, Bool-cases, length, length-append, take, drop,
  Bytes, load, load-append, take-append-drop, length-take, drop-cons, ok, arith,
}
use cmark.Prelude.Int.{pos}
use cmark.Ctype.{is_space}
use cmark.Buffer.{Strbuf, end_at}
use cmark.Buffer.Layout.{Holds}
use cmark.Buffer.Layout.Grow.{nil_of_length}
use cmark.Buffer.Cut.{rtrim_loop, rtrim, skip_loop, trim}
use cmark.Buffer.Cut.Laws.{end_at-Holds-take, drop-drop, take-all}

-- The string without its leading white space.
unfoldable pub trim_start : Bytes → Bytes
trim_start [] = []
trim_start (c ∷ cs) = if is_space c then trim_start cs else c ∷ cs

-- The string `c ∷ cs` for a trimmed end `cs`.
keep : ℕ → Bytes → Bytes
keep c [] = if is_space c then [] else c ∷ []
keep c (x ∷ xs) = c ∷ x ∷ xs

-- The string without its trailing white space.
unfoldable pub trim_end : Bytes → Bytes
unfolding keep
trim_end [] = []
trim_end (c ∷ cs) = keep c (trim_end cs)

keep-nonempty : (c x : ℕ) (t : Bytes) → keep c (t ++ x ∷ []) ≡ c ∷ (t ++ x ∷ [])
unfolding keep
keep-nonempty c x [] = refl
keep-nonempty c x (y ∷ t) = refl

trim_end-append :
    (t : Bytes) (x : ℕ) → trim_end (t ++ x ∷ []) ≡ (if is_space x then trim_end t else t ++ x ∷ [])
unfolding trim_end
trim_end-append [] x = refl
trim_end-append (c ∷ t) x = elim (Bool-cases (is_space x)) [
  | inl space ↦
      let ih : trim_end (t ++ x ∷ []) ≡ trim_end t = rw space at (trim_end-append t x) in
      rw space (ap (keep c) ih)
  | inr other ↦
      let ih : trim_end (t ++ x ∷ []) ≡ t ++ x ∷ [] = rw other at (trim_end-append t x) in
      rw other (ap (keep c) ih ∙ keep-nonempty c x t)
]

keep-take :
    (c : ℕ) (r : Bytes) (t : Bytes)
    → take (length r) t ≡ r
    → take (length (keep c r)) (c ∷ t) ≡ keep c r
unfolding keep
keep-take c [] t h = ground arith
keep-take c (x ∷ xs) t h = ap (λ u. c ∷ u) h

-- The trimmed string is the start of the string, of the length that it has.
trim_end-take : (t : Bytes) → take (length (trim_end t)) t ≡ trim_end t
unfolding trim_end
trim_end-take [] = refl
trim_end-take (c ∷ t) = keep-take c (trim_end t) t (trim_end-take t)

take-suc :
    (n : ℕ) (s r : Bytes) (c : ℕ)
    → take n s ++ c ∷ r ≡ s
    → length (take n s) ≡ n
    → take (suc n) s ≡ take n s ++ c ∷ []
take-suc zero [] r c h e = ap (take 1) (sym h)
take-suc zero (x ∷ s) r c h e = sym (ap (take 1) h)
take-suc (suc n) [] r c h e = absurd (omega (arith, e))
take-suc (suc n) (x ∷ s) r c h e =
    ap (λ u. x ∷ u) (take-suc n s r c (ap (drop 1) h) (omega (arith, e)))

rtrim_loop-trim_end :
    (n : ℕ) (s r : Bytes) → n ≤ length s → rtrim_loop n (s ++ r) ≡ ok (length (trim_end (take n s)))
unfolding rtrim_loop
rtrim_loop-trim_end zero s r le = unfold trim_end in refl
rtrim_loop-trim_end (suc n) s r le =
    let (c, t, split) = drop-cons n s (omega arith) in
    let parts : take n s ++ c ∷ t ≡ s = rw (← split) (take-append-drop n s) in
    let long : length (take n s) ≡ n = omega (arith, length-take n s) in
    let here : s ++ r ≡ take n s ++ c ∷ (t ++ r) =
      sym (ap (λ u. u ++ r) parts) ∙ append_assoc (take n s) (c ∷ t) r in
    let read : load (s ++ r) n ≡ ok c = rw here (rw long at (load-append (take n s) (t ++ r) c)) in
    let ih = rtrim_loop-trim_end n s r (omega arith) in
    rw (read, take-suc n s t c parts long, trim_end-append (take n s) c)
      (elim (Bool-cases (is_space c)) [
        | inl space ↦ rw space ih
        | inr other ↦ rw other (ap (λ k. ok k) (omega (arith, length-append (take n s) (c ∷ []))))
      ])

-- The leading white space is counted.
lead : Bytes → ℕ
lead [] = 0
lead (c ∷ cs) = if is_space c then suc (lead cs) else 0

drop-lead : (s : Bytes) → drop (lead s) s ≡ trim_start s
unfolding lead trim_start
drop-lead [] = refl
drop-lead (c ∷ cs) = elim (Bool-cases (is_space c)) [
  | inl space ↦ rw space (drop-lead cs)
  | inr other ↦ rw other
]

skip_loop-lead :
    (t s r : Bytes) → skip_loop (length t) (length s) (s ++ (t ++ r)) ≡ ok (length s + lead t)
unfolding skip_loop lead
skip_loop-lead [] s r = ap (λ k. ok k) (omega arith)
skip_loop-lead (c ∷ t) s r =
    let shift : length (s ++ c ∷ []) ≡ length s + 1 = omega (arith, length-append s (c ∷ [])) in
    let ih = rw (shift, append_assoc s (c ∷ []) (t ++ r)) at (skip_loop-lead t (s ++ c ∷ []) r) in
    rw (load-append s (t ++ r) c) (elim (Bool-cases (is_space c)) [
      | inl space ↦ rw space (ih ∙ ap (λ k. ok k) (omega arith))
      | inr other ↦ rw other (ap (λ k. ok k) (omega arith))
    ])

empty_of_size : {b : Strbuf} {s : Bytes} → Holds b s → b.size ≡ 0 → s ≡ []
empty_of_size h e = nil_of_length _ (sym h.layout.size_eq ∙ e)

nil_of_size : {b : Strbuf} {s : Bytes} → Holds b s → b.size ≡ 0 → Holds b []
nil_of_size {b} h e = subst (Holds b) (empty_of_size h e) h

module _ {b : Strbuf} {s : Bytes} (h : Holds b s) where
  -- cmark_strbuf_rtrim removes the white space at the end of what a buffer holds, and always
  -- returns.
  pub rtrim-trim_end : Returns (λ b'. Holds b' (trim_end s)) (rtrim b)
  unfolding rtrim trim_end
  rtrim-trim_end = elim (Bool-cases (b.size == 0)) [
    | inl nothing ↦
        let z : b.size ≡ 0 = ground arith in
        rw (nothing, empty_of_size h z) (returns (nil_of_size h z))
    | inr some_left ↦
        let whole : take b.size s ≡ s = take-all b.size s (omega (arith, h.layout.size_eq)) in
        let found : rtrim_loop b.size b.ptr ≡ ok (length (trim_end s)) =
          ap (rtrim_loop b.size) h.layout.memory
          ∙ rtrim_loop-trim_end b.size s (0 ∷ h.junk) (omega (arith, h.layout.size_eq))
          ∙ ap (λ t. ok (length (trim_end t))) whole in
        let shorter : length (trim_end s) ≤ length s =
          omega (arith, ap length (trim_end-take s), length-take (length (trim_end s)) s) in
        rw (some_left, found)
          (subst (λ t. Returns (λ b'. Holds b' t) (end_at b (length (trim_end s))))
            (trim_end-take s) (end_at-Holds-take h (length (trim_end s)) shorter))
  ]

-- cmark_strbuf_trim removes the white space at both ends of what a buffer holds, and always returns.
pub trim-trimmed :
    {b : Strbuf} {s : Bytes}
    → Holds b s
    → Returns (λ b'. Holds b' (trim_end (trim_start s))) (trim b)
unfolding trim trim_end trim_start
trim-trimmed {b} {s} h = elim (Bool-cases (b.size == 0)) [
  | inl nothing ↦
      let z : b.size ≡ 0 = ground arith in
      rw (nothing, empty_of_size h z) (returns (nil_of_size h z))
  | inr some_left ↦
      let found : skip_loop b.size 0 b.ptr ≡ ok (0 + lead s) =
        rw (h.layout.memory, h.layout.size_eq) (skip_loop-lead s [] (0 ∷ h.junk)) in
      rw (some_left, found, zero-add, ← drop-lead s)
        (Returns-bind (drop-drop h (pos (lead s))) λ b' h'. rtrim-trim_end h')
]
