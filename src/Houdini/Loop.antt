-- ===== src/Houdini/Loop.antt =====
-- The common loop puts, in order, each safe byte as it is and the escape of every other.
use cmark.Prelude.{
  ℕ, zero, suc, ◌+◌, ◌≤◌, ◌<◌, ◌≡◌, inl, inr, refl, ap, ◌∙◌, Bool, true, false, [], ◌∷◌, ◌++◌,
  append_assoc, append-nil, ltb, if◌then◌else◌, Bool-cases, length, length-append, take, drop,
  length-drop, Bytes, Run, ok, ◌>>=◌, arith,
}
use cmark.Alloc.{Libc}
use cmark.Buffer.{Strbuf, int32_max, put}
use cmark.Buffer.Layout.{Holds, Ends, done, bind, mono}
use cmark.Buffer.Layout.Append.{put-Holds}
use cmark.Houdini.{run_length, escape_loop}
use cmark.Utf8.Valid.All.{AllBytes}

-- The escaped text: `piece c` stands for a byte that is not safe.
unfoldable pub escaped : (ℕ → Bool) → (ℕ → Bytes) → Bytes → Bytes
escaped safe piece [] = []
escaped safe piece (c ∷ cs) = (if safe c then c ∷ [] else piece c) ++ escaped safe piece cs

module _ (safe : ℕ → Bool) (piece : ℕ → Bytes) where
  -- What lies behind the run of safe bytes.
  data Rest : Bytes → Type 0 where
    at_end : Rest []
    at_unsafe : (d : ℕ) (ds : Bytes) → safe d ≡ false → Rest (d ∷ ds)

  run-Rest : (src : Bytes) → Rest (drop (run_length safe src) src)
  unfolding run_length
  run-Rest [] = at_end
  run-Rest (c ∷ cs) = elim (Bool-cases (safe c)) [
    | inl good ↦
        let e : run_length safe cs + 1 ≡ suc (run_length safe cs) = omega arith in
        rw (good, e) (run-Rest cs)
    | inr bad ↦ rw bad (at_unsafe c cs bad)
  ]

  -- The run of safe bytes is put as it is.
  escaped-run :
      (src : Bytes)
      → escaped safe piece src
        ≡ take (run_length safe src) src ++ escaped safe piece (drop (run_length safe src) src)
  unfolding run_length escaped
  escaped-run [] = refl
  escaped-run (c ∷ cs) = elim (Bool-cases (safe c)) [
    | inl good ↦
        let e : run_length safe cs + 1 ≡ suc (run_length safe cs) = omega arith in
        rw (good, e) (ap (λ t. c ∷ t) (escaped-run cs))
    | inr bad ↦ rw bad (rw bad)
  ]

  AllBytes-drop : (n : ℕ) (src : Bytes) → AllBytes src → AllBytes (drop n src)
  AllBytes-drop zero src h = h
  AllBytes-drop (suc n) [] h = h
  AllBytes-drop (suc n) (c ∷ src) h = AllBytes-drop n src h.1

module _ ⦃libc : Libc⦄ (safe : ℕ → Bool) (piece : ℕ → Bytes)
    (escape : Strbuf → ℕ → Run Strbuf) where
  -- `escape` appends the escape of a byte that is not safe.
  abbrev pub Escapes : Type 0
  Escapes =
      (b : Strbuf) (s : Bytes) (c : ℕ)
      → Holds b s
      → c < 256
      → safe c ≡ false
      → length s + length (piece c) ≤ int32_max
      → Ends (length s + length (piece c)) (λ b'. Holds b' (s ++ piece c)) (escape b c)

  put_run :
      {b : Strbuf} {s : Bytes} (n : ℕ) (d : Bytes)
      → Holds b s
      → length s + length (take n d) ≤ int32_max
      → Ends
          (length s + length (take n d))
          (λ b'. Holds b' (s ++ take n d))
          (if ltb 0 n then put b (take n d) else ok b)
  put_run zero d h fits = rw append-nil (done h)
  put_run (suc n) d h fits =
      let some_n : ltb 0 (suc n) ≡ true = ground arith in
      rw some_n (put-Holds (take (suc n) d) h fits)

  abbrev Loops : ℕ → Type 0
  Loops fuel =
      (b : Strbuf) (s src : Bytes)
      → length src < fuel
      → Holds b s
      → AllBytes src
      → length s + length (escaped safe piece src) ≤ int32_max
      → Ends (length s + length (escaped safe piece src))
          (λ b'. Holds b' (s ++ escaped safe piece src)) (escape_loop safe escape fuel b src)

  module _ (good : Escapes) (fuel : ℕ) (ih : Loops fuel) where
    -- Behind the run: the byte that is not safe, and the rest of the loop.
    after_run :
        (b : Strbuf) (s : Bytes) (r : Bytes)
        → Rest safe piece r
        → length r ≤ fuel
        → Holds b s
        → AllBytes r
        → length s + length (escaped safe piece r) ≤ int32_max
        → Ends
            (length s + length (escaped safe piece r))
            (λ b'. Holds b' (s ++ escaped safe piece r))
            (elim r [
              | [] ↦ ok b
              | d ∷ ds ↦ escape b d >>= λ b'. escape_loop safe escape fuel b' ds
            ])
    unfolding escaped
    after_run b s [] at_end enough h bytes fits = rw append-nil (done h)
    after_run b s (d ∷ ds) (at_unsafe _ _ unsafe) enough h bytes fits = rw unsafe (
        let total = length-append (piece d) (escaped safe piece ds) in
        let joined = length-append s (piece d) in
        let within : length s + (length (piece d) + length (escaped safe piece ds)) ≤ int32_max =
          ground (arith, fits, total) in
        bind (good b s d h bytes.0 unsafe (omega (arith, within))) (omega (arith, total)) λ b' h'.
          rw (← append_assoc s (piece d) (escaped safe piece ds)) (
            mono (ih b' (s ++ piece d) ds (omega arith) h' bytes.1 (omega (arith, within, joined)))
              (omega (arith, joined, total)) λ b'' h''. h''))

    round-Loops : Loops (suc fuel)
    unfolding escape_loop
    round-Loops b s [] enough h bytes fits = unfold escaped in rw append-nil (done h)
    round-Loops b s (c ∷ cs) enough h bytes fits =
        let src = c ∷ cs in
        let n = run_length safe src in
        let e = escaped-run safe piece src in
        let total = length-append (take n src) (escaped safe piece (drop n src)) in
        let joined = length-append s (take n src) in
        let le : length (escaped safe piece src)
            ≡ length (take n src) + length (escaped safe piece (drop n src)) =
          ap length e ∙ total in
        rw e (
          bind (put_run n src h (omega (arith, fits, le))) (omega (arith, total)) λ b' h'.
            rw (← append_assoc s (take n src) (escaped safe piece (drop n src))) (
              mono
                (after_run b' (s ++ take n src) (drop n src) (run-Rest safe piece src)
                  (omega (arith, length-drop n src)) h' (AllBytes-drop safe piece n src bytes)
                  (omega (arith, fits, le, joined)))
                (omega (arith, joined, total)) λ b'' h''. h''))

  pub escape_loop-escaped : Escapes → (fuel : ℕ) → Loops fuel
  escape_loop-escaped good zero b s src enough h bytes fits = absurd (omega arith)
  escape_loop-escaped good (suc fuel) b s src enough h bytes fits =
      round-Loops good fuel (escape_loop-escaped good fuel) b s src enough h bytes fits
