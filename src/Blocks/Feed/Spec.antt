-- ===== src/Blocks/Feed/Spec.antt =====
-- The lines of a text, byte by byte, without buffers: a line ends at a line feed, a carriage return,
-- or both in this order, and each NUL is replaced by U+FFFD.
use cmark.Prelude.{
  ℕ, ◌+◌, ◌*◌, ◌≤◌, ◌≡◌, refl, ap, ◌∙◌, inl, inr, ◌⊎◌, Bool, true, false, ◌==◌, List, [], ◌∷◌, ◌++◌,
  append_assoc, append-nil, length, length-append, Bytes, if◌then◌else◌, Bool-cases, arith,
}
use cmark.Blocks.Feed.{stops, cut, repl, skip_lf}

-- The line so far, whether a carriage return came last, and the lines before.
pub record Split : Type 0 where
  pub text : Bytes
  pub cr : Bool
  pub lines : List Bytes

abbrev pub split_of : Bytes → Bool → List Bytes → Split
split_of l cr ls = record { text = l; cr = cr; lines = ls }

unfoldable pub split_step : Split → ℕ → Split
unfolding repl
split_step st c =
    if c == 10
    then (if st.cr
        then split_of st.text false st.lines
        else split_of [] false (st.lines ++ st.text ∷ []))
    else if c == 13
    then split_of [] true (st.lines ++ st.text ∷ [])
    else if c == 0
    then split_of (st.text ++ repl) false st.lines
    else split_of (st.text ++ c ∷ []) false st.lines

unfoldable pub split : Bytes → Split → Split
unfolding split_step
split [] st = st
split (c ∷ s) st = split s (split_step st c)

-- The last line counts if it is not empty.
unfoldable pub with_text : Bytes → List Bytes → List Bytes
with_text [] ls = ls
with_text (c ∷ l) ls = ls ++ (c ∷ l) ∷ []

abbrev pub flush : Split → List Bytes
flush st = with_text st.text st.lines

unfoldable pub document_lines : Bytes → List Bytes
unfolding split with_text
document_lines text = flush (split text (split_of [] false []))

pub split-append : (s t : Bytes) (st : Split) → split (s ++ t) st ≡ split t (split s st)
unfolding split
split-append [] t st = refl
split-append (c ∷ s) t st = split-append s t (split_step st c)

plain_step :
    (c : ℕ) (l : Bytes) (ls : List Bytes)
    → stops c ≡ false
    → split_step (split_of l false ls) c ≡ split_of (l ++ c ∷ []) false ls
unfolding split_step stops
plain_step c l ls h =
    let a : (c == 10) ≡ false = ground arith in
    let b : (c == 13) ≡ false = ground arith in
    let d : (c == 0) ≡ false = ground arith in rw (a, b, d)

-- The bytes in front of a line end or a NUL join the line.
pub split-cut :
    (s l : Bytes) (ls : List Bytes)
    → split s (split_of l false ls) ≡ split (cut s).1 (split_of (l ++ (cut s).0) false ls)
unfolding cut
split-cut [] l ls = rw append-nil
split-cut (c ∷ s) l ls = elim (Bool-cases (stops c)) [
  | inl h ↦ rw (h, append-nil)
  | inr h ↦
      let here : split (c ∷ s) (split_of l false ls) ≡ split s (split_of (l ++ c ∷ []) false ls) =
        unfold split in ap (split s) (plain_step c l ls h) in
      rw h (
        here
        ∙ split-cut s (l ++ c ∷ []) ls
        ∙ ap (λ t. split (cut s).1 (split_of t false ls)) (append_assoc l (c ∷ []) (cut s).0))
]

-- Behind a carriage return a line feed is skipped, and other bytes are as before.
pub split-skip_lf :
    (c : ℕ) (s l : Bytes) (ls : List Bytes)
    → split (c ∷ s) (split_of l true ls) ≡ split (skip_lf (c ∷ s)) (split_of l false ls)
unfolding split skip_lf
split-skip_lf c s l ls = elim (Bool-cases (c == 10)) [ inl h ↦ rw h | inr h ↦ rw h (rw (h, split)) ]

pub cut-rest :
    (s : Bytes)
    → ((cut s).1 ≡ []) ⊎ ((c : ℕ) × (r : Bytes) × ((cut s).1 ≡ c ∷ r) × (stops c ≡ true))
unfolding cut
cut-rest [] = inl refl
cut-rest (c ∷ s) = elim (Bool-cases (stops c)) [
  | inl h ↦ inr (c, s, rw h, h)
  | inr h ↦ rw h (cut-rest s)
]

pub cut-length : (s : Bytes) → length (cut s).0 + length (cut s).1 ≡ length s
unfolding cut
cut-length [] = omega arith
cut-length (c ∷ s) = elim (Bool-cases (stops c)) [
  | inl h ↦ rw h (omega arith)
  | inr h ↦ rw h (omega (arith, cut-length s))
]

split_step-length : (st : Split) (c : ℕ) → length (split_step st c).text ≤ length st.text + 3
unfolding split_step repl
split_step-length st c = elim (Bool-cases (c == 10)) [
  | inl lf ↦ elim (Bool-cases st.cr) [
    | inl h ↦ rw (lf, h) (omega arith)
    | inr h ↦ rw (lf, h) (omega arith)
  ]
  | inr a ↦ elim (Bool-cases (c == 13)) [
    | inl cr ↦ rw (a, cr) (omega arith)
    | inr b ↦ elim (Bool-cases (c == 0)) [
      | inl nul ↦ rw (a, b, nul) (omega (arith, length-append st.text (239 ∷ 191 ∷ 189 ∷ [])))
      | inr d ↦ rw (a, b, d) (omega (arith, length-append st.text (c ∷ [])))
    ]
  ]
]

-- A byte adds three bytes to the line at most.
pub split-length :
    (s : Bytes) (st : Split) → length (split s st).text ≤ length st.text + 3 * length s
unfolding split
split-length [] st = omega arith
split-length (c ∷ s) st = omega (arith, split-length s (split_step st c), split_step-length st c)
