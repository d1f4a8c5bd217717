-- ===== src/Blocks/Trailing/Lines.antt =====
-- What `remove_trailing_blank_lines` leaves of a text.
use cmark.Prelude.{
  ℕ, zero, suc, ◌+◌, ◌-◌, ◌≡◌, ◌⊎◌, inl, inr, refl, sym, ap, ◌∙◌, true, false, Option, none, some,
  ◌==◌, if◌then◌else◌, Bool-cases, [], ◌∷◌, ◌++◌, append_assoc, append-nil, length, length-append,
  take, take-append, Bytes, load, load-append, ok, Returns, returns, Returns-bind, Returns-mono,
  ◌>>=◌, arith,
}
use mathlib.Core.Path.{subst}
use cmark.Prelude.Int.{pos}
use cmark.Alloc.{Libc}
use cmark.Buffer.{Strbuf, clear}
use cmark.Buffer.Cut.Laws.{truncate-take}
use cmark.Buffer.Layout.{Holds}
use cmark.Buffer.Layout.Clear.{clear-Holds}
use cmark.Blocks.{is_line_end_char, is_space_or_tab}
use cmark.Blocks.Trailing.{is_blank, last_text, first_end, cut_at, remove_trailing_blank_lines}

abbrev pub AllBlank : Bytes → Type 0
AllBlank [] = Unit {0}
AllBlank (c ∷ s) = (is_blank c ≡ true) × AllBlank s

abbrev pub NoLineEnd : Bytes → Type 0
NoLineEnd [] = Unit {0}
NoLineEnd (c ∷ s) = (is_line_end_char c ≡ false) × NoLineEnd s

-- The text is `kept ++ rest`: up to the last byte that is not blank, and on to the end of its line.
pub record Trimmed (s kept : Bytes) : Type 0 where
  pub front : Bytes
  pub last : ℕ
  pub spaces : Bytes
  pub rest : Bytes
  pub whole : s ≡ kept ++ rest
  pub kept_eq : kept ≡ front ++ last ∷ spaces
  pub last_shown : is_blank last ≡ false
  pub blank : AllBlank (spaces ++ rest)
  pub one_line : NoLineEnd spaces
  pub at_end : (rest ≡ []) ⊎ ((c : ℕ) × (r : Bytes) × (rest ≡ c ∷ r) × (is_line_end_char c ≡ true))

snoc :
    (n : ℕ) (p : Bytes)
    → length p ≡ suc n
    → (q : Bytes) × (x : ℕ) × (p ≡ q ++ x ∷ []) × (length q ≡ n)
snoc n [] h = absurd (omega arith)
snoc zero (x ∷ []) h = ([], x, refl, refl)
snoc zero (x ∷ y ∷ p) h = absurd (omega arith)
snoc (suc n) (x ∷ p) h =
    let (q, y, e, l) = snoc n p (omega arith) in (x ∷ q, y, ap (λ t. x ∷ t) e, omega arith)

-- Where the first loop ends.
Found : Bytes → ℕ → Type 0
Found s k =
    ((k ≡ 0) × AllBlank s)
    ⊎ ((a : Bytes) × (c : ℕ) × (q : Bytes) × (s ≡ a ++ c ∷ q)
        × (is_blank c ≡ false)
        × AllBlank q
        × (k ≡ suc (length a)))

last_text-Found :
    (n : ℕ) (s p q r : Bytes)
    → s ≡ p ++ q
    → length p ≡ n
    → AllBlank q
    → Returns (Found s) (last_text n (s ++ r))
unfolding last_text Found
last_text-Found zero s [] q r e l h = returns (inl (refl, subst AllBlank (sym e) h))
last_text-Found zero s (x ∷ p) q r e l h = absurd (omega arith)
last_text-Found (suc n) s p q r e l h =
    let (a, x, f, k) = snoc n p l in
    let split : s ≡ a ++ x ∷ q = e ∙ ap (λ t. t ++ q) f ∙ append_assoc a (x ∷ []) q in
    let read : load (s ++ r) n ≡ ok x =
      rw (split, append_assoc a (x ∷ q) r, ← k) (load-append a (q ++ r) x) in
    elim (Bool-cases (is_blank x)) [
      | inl blank ↦ rw (read, blank) (last_text-Found n s a (x ∷ q) r split k (blank, h))
      | inr other ↦ rw (read, other) (returns (inr (a, x, q, split, other, h, ap suc (sym k))))
    ]

Ended : Bytes → Bytes → Option ℕ → Type 0
Ended a q none = NoLineEnd q
Ended a q (some j) =
    (body : Bytes) × (c : ℕ) × (tail : Bytes) × (q ≡ body ++ c ∷ tail)
    × NoLineEnd body
    × (is_line_end_char c ≡ true)
    × (j ≡ length a + length body)

Ended-later :
    (a q : Bytes) (x : ℕ) (o : Option ℕ)
    → is_line_end_char x ≡ false
    → Ended (a ++ x ∷ []) q o
    → Ended a (x ∷ q) o
unfolding Ended
Ended-later a q x none h e = (h, e)
Ended-later a q x (some j) h (body, c, tail, e, plain, ends, at) = (
  x ∷ body,
  c,
  tail,
  ap (λ t. x ∷ t) e,
  (h, plain),
  ends,
  omega (arith, at, length-append a (x ∷ [])),
)

first_end-Ended :
    (a q r : Bytes) → Returns (Ended a q) (first_end (length q) (a ++ (q ++ r)) (length a))
unfolding first_end Ended
first_end-Ended a [] r = returns tt
first_end-Ended a (x ∷ q) r =
    let read = load-append a (q ++ r) x in
    let one : length (a ++ x ∷ []) ≡ length a + 1 = length-append a (x ∷ []) in
    elim (Bool-cases (is_line_end_char x)) [
      | inl ends ↦ rw (read, ends) (returns ([], x, q, refl, tt, ends, omega arith))
      | inr plain ↦
          rw (read, plain)
            (Returns-mono
              (rw (append_assoc a (x ∷ []) (q ++ r), one) at (first_end-Ended (a ++ x ∷ []) q r))
              (λ o e. Ended-later a q x o plain e))
    ]

not_end : (c : ℕ) → is_blank c ≡ false → is_line_end_char c ≡ false
unfolding is_blank is_line_end_char is_space_or_tab
not_end c h = ground arith

-- A text of blanks becomes empty; of another, it keeps the part up to the end of the last line that
-- is not blank.
abbrev pub Kept : Bytes → Strbuf → Type 0
Kept s b = (Holds b [] × AllBlank s) ⊎ ((kept : Bytes) × Holds b kept × Trimmed s kept)

Trimmed-whole :
    (s a q : Bytes) (c : ℕ)
    → s ≡ a ++ c ∷ q
    → is_blank c ≡ false
    → AllBlank q
    → NoLineEnd (c ∷ q)
    → Trimmed s s
Trimmed-whole s a q c split other blank plain = record {
  front = a;
  last = c;
  spaces = q;
  rest = [];
  whole = rw append-nil;
  kept_eq = split;
  last_shown = other;
  blank = rw append-nil blank;
  one_line = plain.1;
  at_end = inl refl;
}

cut_at-Kept :
    (ln : Strbuf) (s a q : Bytes) (c : ℕ) (o : Option ℕ)
    → Holds ln s
    → s ≡ a ++ c ∷ q
    → is_blank c ≡ false
    → AllBlank q
    → Ended a (c ∷ q) o
    → Returns (Kept s) (cut_at ln o)
unfolding Ended cut_at
cut_at-Kept ln s a q c none h split other blank plain =
    returns (inr (s, h, Trimmed-whole s a q c split other blank plain))
cut_at-Kept ln s a q c (some j) h split other blank ([], x, tail, e, plain, ends, at) =
    let same : c ≡ x = cc in
    let line : is_line_end_char c ≡ true = ap is_line_end_char same ∙ ends in
    let inside = not_end c other in cc
cut_at-Kept ln s a q c (some j) h split other blank (d ∷ body, x, tail, e, plain, ends, at) =
    let same : c ≡ d = cc in
    let after : q ≡ body ++ x ∷ tail = cc in
    let kept = a ++ c ∷ body in
    let parts : s ≡ kept ++ x ∷ tail =
      split ∙ ap (λ t. a ++ c ∷ t) after ∙ sym (append_assoc a (c ∷ body) (x ∷ tail)) in
    let long : j ≡ length kept = omega (arith, at, length-append a (c ∷ body)) in
    let taken : take j s ≡ kept = rw (parts, long) (take-append kept (x ∷ tail)) in
    Returns-mono (truncate-take h (pos j)) (λ b g. inr (
      kept,
      subst (Holds b) taken g,
      record {
        front = a;
        last = c;
        spaces = body;
        rest = x ∷ tail;
        whole = parts;
        kept_eq = refl;
        last_shown = other;
        blank = subst AllBlank after blank;
        one_line = plain.1;
        at_end = inr (x, tail, refl, ends);
      },
    ))

module _ ⦃libc : Libc⦄ where
  loops-Kept :
      (ln : Strbuf) (s m : Bytes) (n k : ℕ) (h : Holds ln s)
      → m ≡ s ++ 0 ∷ h.junk
      → n ≡ length s
      → Found s k
      → Returns
          (Kept s)
          (if k == 0 then clear ln else (first_end (n - (k - 1)) m (k - 1) >>= λ o. cut_at ln o))
  unfolding Found
  loops-Kept ln s m n k h memory size (inl (e, blank)) =
      rw e (Returns-mono (clear-Holds h) (λ b g. inl (g, blank)))
  loops-Kept ln s m n k h memory size (inr (a, c, q, split, other, blank, e)) =
      let some_text : (k == 0) ≡ false = ground arith in
      let at : k - 1 ≡ length a = omega arith in
      let left : n - length a ≡ length (c ∷ q) =
        omega (arith, ap length split, length-append a (c ∷ q)) in
      let here : m ≡ a ++ ((c ∷ q) ++ 0 ∷ h.junk) =
        memory ∙ ap (λ t. t ++ 0 ∷ h.junk) split ∙ append_assoc a (c ∷ q) (0 ∷ h.junk) in
      rw (some_text, at, left, here)
        (Returns-bind (first_end-Ended a (c ∷ q) (0 ∷ h.junk))
          (λ o g. cut_at-Kept ln s a q c o h split other blank g))

  -- remove_trailing_blank_lines always returns. A text of white space becomes empty; of another the
  -- buffer keeps what comes up to the last byte that is neither a space, a tab nor a line end, with the
  -- spaces and tabs behind it, up to the line end.
  pub remove_trailing_blank_lines-Kept :
      (ln : Strbuf) (s : Bytes) → Holds ln s → Returns (Kept s) (remove_trailing_blank_lines ln)
  unfolding remove_trailing_blank_lines
  remove_trailing_blank_lines-Kept ln s h =
      let memory = h.layout.memory in
      let size = h.layout.size_eq in
      let first : Returns (Found s) (last_text ln.size ln.ptr) =
        subst (λ n. Returns (Found s) (last_text n ln.ptr)) (sym size)
          (subst (λ m. Returns (Found s) (last_text (length s) m)) (sym memory)
            (last_text-Found (length s) s s [] (0 ∷ h.junk) (rw append-nil) refl tt)) in
      Returns-bind first (λ k found. loops-Kept ln s ln.ptr ln.size k h memory size found)
