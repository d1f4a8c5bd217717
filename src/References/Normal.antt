-- ===== src/References/Normal.antt =====
-- `normalize_reference`: the label that a text stands for.
use cmark.Prelude.{
  ℕ, ◌≤◌, ◌<◌, ◌≡◌, refl, inl, inr, false, Option, none, some, List, [], ◌∷◌, ◌++◌, ◌==◌, ◌%◌, ◌||◌,
  ltb, if◌then◌else◌, length, Bytes, slice, Bool-cases, ok, arith,
}
use cmark.Alloc.{Libc}
use cmark.Buffer.{int32_max, empty}
use cmark.Buffer.Layout.{empty-Holds, Ends, done, bind, bind_Returns}
use cmark.Buffer.Cut.Trim.{trim_start, trim_end, trim-trimmed}
use cmark.Buffer.Rewrite.Whitespace.{collapse, normalize_whitespace-collapse}
use cmark.Buffer.Layout.Detach.{detach-Holds}
use cmark.Chunk.{Chunk, memory_of}
use cmark.Utf8.Valid.All.{AllBytes}
use cmark.Utf8.Fold.{FoldsInRange, folded, case_fold-folded}
use cmark.References.{
  Reference, c_string, normalize_reference, reference_lookup, map_new, refhash, refmap_size,
  max_label, find,
}
use cmark.References.Table.{add_all, first_with, Hashed, found_in-add_all}

-- The bytes in front of the first NUL.
unfoldable pub until_nul : Bytes → Bytes
until_nul [] = []
until_nul (c ∷ s) = let rest = until_nul s in if c == 0 then [] else c ∷ rest

c_string-until_nul : (s junk : Bytes) → c_string (s ++ 0 ∷ junk) ≡ ok (until_nul s)
unfolding c_string until_nul
c_string-until_nul [] junk = refl
c_string-until_nul (c ∷ s) junk = elim (Bool-cases (c == 0)) [
  | inl nul ↦ rw nul refl
  | inr other ↦ rw (other, c_string-until_nul s junk) refl
]

-- An empty label is none.
abbrev pub some_label : Bytes → Option Bytes
some_label [] = none
some_label (c ∷ s) = some (c ∷ s)

-- The text of a label, case folded, trimmed, and with its white space collapsed.
abbrev pub normal_form : (ℕ → List ℕ) → Bytes → Bytes
normal_form fold d = until_nul (collapse false (trim_end (trim_start (folded fold d))))

module _ ⦃libc : Libc⦄ where
  -- For a label that is not empty, and whose folded text is no longer than INT32_MAX,
  -- normalize_reference gives the text case folded, trimmed and with its white space collapsed, up
  -- to the first NUL, and the null pointer if that is empty. Other outcomes are only that memory
  -- runs out, or that the code aborts on a length past its limit.
  pub normalize_reference-normal_form :
      (fold : ℕ → List ℕ) (ref : Chunk) (m d : Bytes)
      → FoldsInRange fold
      → ref.bytes ≡ some m
      → slice m 0 ref.len ≡ ok d
      → 0 < ref.len
      → AllBytes d
      → length (folded fold d) ≤ int32_max
      → Ends
          (length (folded fold d))
          (λ r. r ≡ some_label (normal_form fold d))
          (normalize_reference fold (some ref))
  unfolding normalize_reference memory_of
  normalize_reference-normal_form fold ref m d range memory text some_len bytes fits =
      let given : (ref.len == 0) ≡ false = ground arith in
      rw (given, memory, text)
        (bind (case_fold-folded fold range empty [] d bytes empty-Holds (omega (arith, fits)))
          (omega arith)
          λ b₁ h₁. bind_Returns (trim-trimmed h₁) λ b₂ h₂.
            bind_Returns (normalize_whitespace-collapse h₂) λ b₃ h₃.
              bind (detach-Holds h₃) (omega arith) λ r held.
                rw
                  (
                    held.1,
                    c_string-until_nul (collapse false (trim_end (trim_start (folded fold d))))
                        held.0,
                  )
                  (label_of (normal_form fold d)))
    where
      label_of :
          {n : ℕ} (l : Bytes)
          → Ends n (λ r. r ≡ some_label l) (elim l [ [] ↦ ok none | c ∷ s ↦ ok (some (c ∷ s)) ])
      label_of [] = done refl
      label_of (c ∷ s) = done refl

-- The first reference whose label is the normal form of a text, if that is a label.
unfoldable pub first_for : Option Bytes → List Reference → Option Reference
first_for none refs = none
first_for (some l) refs = first_with l refs

-- A map made by adding references, whose hashes are those of their labels, answers
-- cmark_reference_lookup for a label of 1 to 1000 bytes, whose folded text is no longer than
-- INT32_MAX, with the first of the references whose label is the normal form of the text, or with
-- none. The switch of case folding may be any function from code points to code points. Other
-- outcomes are only that memory runs out, or that the code aborts on a length past its limit.
pub reference_lookup-first_for :
    ⦃libc : Libc⦄ (fold : ℕ → List ℕ) (refs : List Reference) (label : Chunk) (m d : Bytes)
    → Hashed refs
    → FoldsInRange fold
    → label.bytes ≡ some m
    → slice m 0 label.len ≡ ok d
    → 0 < label.len
    → label.len ≤ max_label
    → AllBytes d
    → length (folded fold d) ≤ int32_max
    → Ends
        (length (folded fold d))
        (λ r. r ≡ first_for (some_label (normal_form fold d)) refs)
        (reference_lookup fold (some (add_all map_new refs)) label)
unfolding reference_lookup first_for
reference_lookup-first_for fold refs label m d hashed range memory text some_len short bytes fits =
    let in_range : (ltb label.len 1 || ltb max_label label.len) ≡ false = ground arith in
    rw in_range (
      bind (normalize_reference-normal_form fold label m d range memory text some_len bytes fits)
        (omega arith) λ r e. rw e (answer (some_label (normal_form fold d))))
  where
    answer :
        {n : ℕ} (l : Option Bytes)
        → Ends n
            (λ r. r ≡ first_for l refs)
            (elim l [
              | none ↦ ok none
              | some t ↦ ok (find (refhash t) t (add_all map_new refs (refhash t % refmap_size)))
            ])
    answer none = done refl
    answer (some t) = done (found_in-add_all refs t hashed)
