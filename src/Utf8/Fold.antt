-- ===== src/Utf8/Fold.antt =====
-- utf8.c: `cmark_utf8proc_case_fold`. The switch that a tool writes into case_fold_switch.inc is a
-- parameter: the code points that are put for a code point, itself by default.
use cmark.Prelude.{
  ℕ, zero, suc, ◌+◌, ◌≤◌, ◌<◌, ◌≡◌, refl, true, none, some, List, [], ◌∷◌, ◌++◌, append_assoc,
  append-nil, length, length-append, length-drop, drop, Bytes, Run, ok, aborted, fault, out_of_fuel,
  ◌>>=◌, ltb, arith,
}
use cmark.Alloc.{Libc}
use cmark.Buffer.{Strbuf, int32_max}
use cmark.Buffer.Layout.{Holds, Ends, done, bind, mono}
use cmark.Buffer.Layout.Append.{put-Holds}
use cmark.Utf8.{iterate, encode, encode_char, encode_unknown, replacement}
use cmark.Utf8.Valid.{accepts, rejects}
use cmark.Utf8.Valid.All.{AllBytes, verdict}

module _ (fold : ℕ → List ℕ) where
  module _ ⦃libc : Libc⦄ where
    unfoldable pub push_all : List ℕ → Strbuf → Run Strbuf
    push_all [] dest = ok dest
    push_all (uc ∷ ucs) dest = encode_char uc dest >>= λ dest'. push_all ucs dest'

    -- Each round passes over a byte at least; a byte that starts no sequence is passed over alone.
    unfoldable pub case_fold_loop : ℕ → Strbuf → Bytes → Run Strbuf
    case_fold_loop zero dest str = out_of_fuel
    case_fold_loop (suc fuel) dest [] = ok dest
    case_fold_loop (suc fuel) dest (c ∷ cs) = iterate (c ∷ cs) >>= λ r. elim r [
      | none ↦ encode_unknown dest >>= λ dest'. case_fold_loop fuel dest' cs
      | some (n, uc) ↦
          push_all (fold uc) dest >>= λ dest'. case_fold_loop fuel dest' (drop n (c ∷ cs))
    ]

    unfoldable pub case_fold : Strbuf → Bytes → Run Strbuf
    case_fold dest str = case_fold_loop (length str + 1) dest str

  unfoldable pub encode_all : List ℕ → Bytes
  encode_all [] = []
  encode_all (uc ∷ ucs) = encode uc ++ encode_all ucs

  -- The text with every code point folded, and U+FFFD for each byte that cannot be read.
  unfoldable pub folded_loop : ℕ → Bytes → Bytes
  folded_loop zero str = []
  folded_loop (suc fuel) [] = []
  folded_loop (suc fuel) (c ∷ cs) = elim (iterate (c ∷ cs)) [
    | ok none ↦ replacement ++ folded_loop fuel cs
    | ok (some (n, uc)) ↦ encode_all (fold uc) ++ folded_loop fuel (drop n (c ∷ cs))
    | aborted e ↦ []
    | fault ↦ []
    | out_of_fuel ↦ []
  ]

  unfoldable pub folded : Bytes → Bytes
  folded str = folded_loop (length str + 1) str

  abbrev AllBelow : List ℕ → Type 0
  AllBelow [] = Unit {0}
  AllBelow (uc ∷ ucs) = (uc < 0x110000) × AllBelow ucs

  -- The switch puts code points for code points.
  abbrev pub FoldsInRange : Type 0
  FoldsInRange = (uc : ℕ) → uc < 0x110000 → AllBelow (fold uc)

  AllBytes-drop : (n : ℕ) (str : Bytes) → AllBytes str → AllBytes (drop n str)
  AllBytes-drop zero str h = h
  AllBytes-drop (suc n) [] h = h
  AllBytes-drop (suc n) (c ∷ str) h = AllBytes-drop n str h.1

  module _ ⦃libc : Libc⦄ where
    push_all-Holds :
        (ucs : List ℕ) (b : Strbuf) (s : Bytes)
        → AllBelow ucs
        → Holds b s
        → length s + length (encode_all ucs) ≤ int32_max
        → Ends
            (length s + length (encode_all ucs))
            (λ b'. Holds b' (s ++ encode_all ucs))
            (push_all ucs b)
    unfolding push_all encode_all encode_char
    push_all-Holds [] b s below h fits = rw append-nil (done h)
    push_all-Holds (uc ∷ ucs) b s below h fits =
        let inside : ltb uc 0x110000 ≡ true = ground (arith, below.0) in
        let total = length-append (encode uc) (encode_all ucs) in
        let joined = length-append s (encode uc) in
        rw inside (
          bind (put-Holds (encode uc) h (omega (arith, fits, total))) (omega (arith, total))
            λ b' h'. rw (← append_assoc s (encode uc) (encode_all ucs)) (
              mono
                (push_all-Holds ucs b' (s ++ encode uc) below.1 h'
                  (omega (arith, fits, total, joined)))
                (omega (arith, total, joined)) λ b'' h''. h''))

    -- A part is put, and the rest of the loop follows.
    after_part :
        {first : Run Strbuf} {rest : Strbuf → Run Strbuf} (s A B : Bytes)
        → Ends (length s + length A) (λ b'. Holds b' (s ++ A)) first
        → length s + length (A ++ B) ≤ int32_max
        → ((b' : Strbuf)
            → Holds b' (s ++ A)
            → length (s ++ A) + length B ≤ int32_max
            → Ends (length (s ++ A) + length B) (λ b''. Holds b'' ((s ++ A) ++ B)) (rest b'))
        → Ends (length s + length (A ++ B)) (λ b'. Holds b' (s ++ (A ++ B))) (first >>= rest)
    after_part s A B start fits next =
        let total = length-append A B in
        let joined = length-append s A in
        bind start (omega (arith, total)) λ b' h'. rw (← append_assoc s A B) (
          mono (next b' h' (omega (arith, fits, total, joined))) (omega (arith, total, joined))
            λ b'' h''. h'')

    case_fold_loop-folded :
        FoldsInRange
        → (fuel : ℕ) (b : Strbuf) (s str : Bytes) → length str < fuel
        → AllBytes str
        → Holds b s
        → length s + length (folded_loop fuel str) ≤ int32_max
        → Ends
            (length s + length (folded_loop fuel str))
            (λ b'. Holds b' (s ++ folded_loop fuel str))
            (case_fold_loop fuel b str)
    unfolding case_fold_loop folded_loop encode_unknown
    case_fold_loop-folded range zero b s str enough bytes h fits = absurd (omega arith)
    case_fold_loop-folded range (suc fuel) b s [] enough bytes h fits =
        unfold folded_loop in rw append-nil (done h)
    case_fold_loop-folded range (suc fuel) b s (c ∷ cs) enough bytes h fits =
        elim (verdict c cs bytes) [
          | accepts n uc a ↦
              let rest = folded_loop fuel (drop n (c ∷ cs)) in
              let text : folded_loop (suc fuel) (c ∷ cs) ≡ encode_all (fold uc) ++ rest =
                rw (a.iterate_eq, folded_loop) refl in
              let fits' : length s + length (encode_all (fold uc) ++ rest) ≤ int32_max =
                rw text at fits in
              let total = length-append (encode_all (fold uc)) rest in
              rw (text, a.iterate_eq)
                (after_part s (encode_all (fold uc)) rest
                  (push_all-Holds (fold uc) b s (range uc a.scalar.in_range) h
                    (omega (arith, fits', total)))
                  fits'
                  λ b' h' inside.
                    case_fold_loop-folded range fuel b' (s ++ encode_all (fold uc))
                      (drop n (c ∷ cs)) (omega (arith, length-drop n (c ∷ cs), a.some_bytes))
                      (AllBytes-drop n (c ∷ cs) bytes) h' inside)
          | rejects m r ↦
              let rest = folded_loop fuel cs in
              let text : folded_loop (suc fuel) (c ∷ cs) ≡ replacement ++ rest =
                rw (r.iterate_eq, folded_loop) refl in
              let fits' : length s + length (replacement ++ rest) ≤ int32_max = rw text at fits in
              let total = length-append replacement rest in
              rw (text, r.iterate_eq)
                (after_part s replacement rest
                  (put-Holds replacement h (omega (arith, fits', total))) fits'
                  λ b' h' inside.
                    case_fold_loop-folded range fuel b' (s ++ replacement) cs (omega arith) bytes.1
                      h' inside)
        ]

    -- cmark_utf8proc_case_fold appends the folded text to a buffer: each code point as the switch
    -- folds it, and U+FFFD for each byte that cannot be decoded. The switch may be any function
    -- from code points to code points; the folded text and what the buffer holds must be no longer
    -- than INT32_MAX together. Other outcomes are only that memory runs out, or that the code
    -- aborts on a length past its limit.
    pub case_fold-folded :
        FoldsInRange
        → (b : Strbuf) (s str : Bytes) → AllBytes str
        → Holds b s
        → length s + length (folded str) ≤ int32_max
        → Ends (length s + length (folded str)) (λ b'. Holds b' (s ++ folded str)) (case_fold b str)
    unfolding case_fold folded
    case_fold-folded range b s str bytes h fits =
        case_fold_loop-folded range (length str + 1) b s str (omega arith) bytes h fits
