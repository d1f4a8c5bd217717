-- ===== src/Blocks/Feed/Lines.antt =====
-- `S_parser_feed` hands over the lines of the text, however the text is cut into buffers.
use cmark.Prelude.{
  ℕ, zero, suc, ◌+◌, ◌*◌, ◌≤◌, ◌<◌, ◌≡◌, refl, sym, ap, ◌∙◌, inl, inr, Bool, true, false, ◌==◌, ltb,
  leb, List, [], ◌∷◌, ◌++◌, length, length-append, take, take-append, load, slice, Bytes,
  if◌then◌else◌, Bool-cases, Run, ok, ◌>>=◌, arith,
}
use mathlib.Core.Path.{subst}
use cmark.Alloc.{Libc}
use cmark.Buffer.{Strbuf, int32_max}
use cmark.Buffer.Layout.{Holds, Ends, done, bind, bind_Returns, mono}
use cmark.Buffer.Layout.Append.{put-Holds}
use cmark.Buffer.Layout.Clear.{clear-Holds}
use cmark.Buffer.Layout.Grow.{nil_of_length}
use cmark.Blocks.{is_line_end_char}
use cmark.Blocks.Feed.{
  Feeder, stops, cut, ends_line, process_line, repl, end_line, keep_chunk, take_chunk, skip_lf,
  at_end, skip_end, feed_loop,
}
use cmark.Blocks.Feed.Spec.{
  Split, split_of, split_step, split, with_text, flush, split-cut, split-skip_lf, cut-rest,
  cut-length,
}

-- The feeder is where the split is.
pub record Fed (p : Feeder) (st : Split) : Type 0 where
  pub holds : Holds p.linebuf st.text
  pub cr_eq : p.ended_with_cr ≡ st.cr
  pub lines_eq : p.processed ≡ st.lines

-- After the loop: the state of the split, or at the end of the input the same lines.
pub record Agrees (eof : Bool) (st : Split) (p : Feeder) : Type 0 where
  pub now : Split
  pub fed : Fed p now
  pub same_lines : flush now ≡ flush st
  pub same_state : eof ≡ false → now ≡ st

agrees : (eof : Bool) (st : Split) (p : Feeder) → Fed p st → Agrees eof st p
agrees eof st p fed = record { now = st; fed = fed; same_lines = refl; same_state = λ e. refl }

Agrees-shift :
    {eof : Bool} {st st' : Split} {p : Feeder}
    → flush st ≡ flush st'
    → (eof ≡ false → st ≡ st')
    → Agrees eof st p
    → Agrees eof st' p
Agrees-shift same moved a = record {
  now = a.now;
  fed = a.fed;
  same_lines = a.same_lines ∙ same;
  same_state = λ e. a.same_state e ∙ moved e;
}

last_line :
    (l chunk : Bytes) (ls : List Bytes)
    → 0 < length chunk
    → with_text (l ++ chunk) ls ≡ ls ++ (l ++ chunk) ∷ []
unfolding with_text
last_line [] [] ls h = elim h [ ]
last_line [] (c ∷ chunk) ls h = refl
last_line (d ∷ l) chunk ls h = refl

pub slice-Holds : {b : Strbuf} {s : Bytes} → Holds b s → slice b.ptr 0 b.size ≡ ok s
slice-Holds {b} {s} h =
    let whole = ap length h.layout.memory ∙ length-append s (0 ∷ h.junk) in
    let fits : leb (0 + b.size) (length b.ptr) ≡ true = ground (arith, h.layout.size_eq, whole) in
    rw fits (
      ap (λ t. ok t)
        (ap (λ n. take n b.ptr) h.layout.size_eq
          ∙ ap (take (length s)) h.layout.memory
          ∙ take-append s (0 ∷ h.junk)))

module _ ⦃libc : Libc⦄ (n : ℕ) (most : n ≤ int32_max) where
  end_line-Fed :
      {p : Feeder} {l : Bytes} {cr : Bool} {ls : List Bytes} (chunk : Bytes)
      → Fed p (split_of l cr ls)
      → length l + length chunk ≤ n
      → Ends n (λ p'. Fed p' (split_of [] cr (ls ++ (l ++ chunk) ∷ []))) (end_line p chunk)
  unfolding end_line process_line
  end_line-Fed {p} {l} {cr} {ls} chunk fed fits = elim (Bool-cases (ltb 0 p.linebuf.size)) [
    | inl some_text ↦ rw some_text (
        bind (put-Holds chunk fed.holds (omega (arith, fits, most))) fits λ b held.
          rw (slice-Holds held) (
            bind_Returns (clear-Holds held) λ b' empty. done (record {
              holds = empty;
              cr_eq = fed.cr_eq;
              lines_eq = ap (λ t. t ++ (l ++ chunk) ∷ []) fed.lines_eq;
            })))
    | inr no_text ↦
        let e : l ≡ [] = nil_of_length l (ground (arith, fed.holds.layout.size_eq)) in
        rw (no_text, e)
          (done (record {
            holds = subst (Holds p.linebuf) e fed.holds;
            cr_eq = fed.cr_eq;
            lines_eq = ap (λ t. t ++ chunk ∷ []) fed.lines_eq;
          }))
  ]

  keep_chunk-Fed_end :
      {p : Feeder} {l : Bytes} {cr : Bool} {ls : List Bytes} (chunk : Bytes)
      → Fed p (split_of l cr ls)
      → length l + length chunk ≤ n
      → Ends n (λ p'. Fed p' (split_of (l ++ chunk) cr ls)) (keep_chunk p chunk [])
  unfolding keep_chunk
  keep_chunk-Fed_end chunk fed fits =
      bind (put-Holds chunk fed.holds (omega (arith, fits, most))) fits
        λ b held. done (record { holds = held; cr_eq = fed.cr_eq; lines_eq = fed.lines_eq })

  keep_chunk-Fed_nul :
      {p : Feeder} {l : Bytes} {cr : Bool} {ls : List Bytes} (chunk : Bytes) (c : ℕ) (rest : Bytes)
      → Fed p (split_of l cr ls)
      → length l + length chunk + 3 ≤ n
      → Ends n
          (λ p'. Fed p' (split_of ((l ++ chunk) ++ repl) cr ls))
          (keep_chunk p chunk (c ∷ rest))
  unfolding keep_chunk
  keep_chunk-Fed_nul {l = l} chunk c rest fed fits =
      bind (put-Holds chunk fed.holds (omega (arith, fits, most))) (omega (arith, fits)) λ b held.
        bind (put-Holds repl held (unfold repl in omega (arith, fits, most, length-append l chunk)))
          (unfold repl in omega (arith, fits, length-append l chunk))
          λ b' held'. done (record { holds = held'; cr_eq = fed.cr_eq; lines_eq = fed.lines_eq })

module _ ⦃libc : Libc⦄ (n : ℕ) (most : n ≤ int32_max) (eof : Bool) (behind : Bytes) (next : ℕ)
    (memory : Bytes) (known : behind ≡ next ∷ memory) where
  -- The byte that is looked at behind a carriage return.
  load-behind : (s : Bytes) → (c : ℕ) × (load (s ++ behind) 0 ≡ ok c)
  load-behind [] = (next, ap (λ m. load m 0) known)
  load-behind (c ∷ s) = (c, refl)

  abbrev pub Loops : ℕ → Type 0
  Loops fuel =
      (buffer : Bytes) (p : Feeder) (l : Bytes) (ls : List Bytes)
      → length buffer < fuel
      → Fed p (split_of l false ls)
      → length l + 3 * length buffer ≤ n
      → Ends n (Agrees eof (split buffer (split_of l false ls)))
          (feed_loop fuel eof behind buffer p)

  -- A round of the loop behind the search for the end of the chunk.
  abbrev Round : ℕ → Bytes → Bytes → Feeder → Run Feeder
  Round fuel chunk rest p = take_chunk eof p chunk rest >>= λ p'.
      skip_end behind rest p' >>= λ r. feed_loop fuel eof behind r.0 r.1

  takes_line :
      (p : Feeder) (chunk rest : Bytes)
      → ends_line eof rest ≡ true
      → take_chunk eof p chunk rest ≡ end_line p chunk
  unfolding take_chunk
  takes_line p chunk rest h = rw h

  takes_part :
      (p : Feeder) (chunk rest : Bytes)
      → ends_line eof rest ≡ false
      → take_chunk eof p chunk rest ≡ keep_chunk p chunk rest
  unfolding take_chunk
  takes_part p chunk rest h = rw h

  at_the_end :
      (fuel : ℕ) (chunk : Bytes) (p : Feeder) (l : Bytes) (ls : List Bytes)
      → Loops fuel
      → 0 < length chunk
      → 0 < fuel
      → Fed p (split_of l false ls)
      → length l + length chunk ≤ n
      → Ends n (Agrees eof (split [] (split_of (l ++ chunk) false ls))) (Round fuel chunk [] p)
  unfolding skip_end split with_text
  at_the_end fuel chunk p l ls loop some enough fed fits = elim (Bool-cases eof) [
    | inl last ↦ rw (takes_line p chunk [] (unfold ends_line in last)) (
        bind (end_line-Fed n most chunk fed fits) (omega arith) λ p' fed'.
          mono (loop [] p' [] (ls ++ (l ++ chunk) ∷ []) enough fed' (omega arith)) (omega arith)
            λ q a. Agrees-shift (sym (last_line l chunk ls some)) (λ e. cc) a)
    | inr later ↦ rw (takes_part p chunk [] (unfold ends_line in later)) (
        bind (keep_chunk-Fed_end n most chunk fed fits) (omega arith)
          λ p' fed'. loop [] p' (l ++ chunk) ls enough fed' (omega (arith, length-append l chunk)))
  ]

  at_nul :
      (fuel : ℕ) (chunk : Bytes) (c : ℕ) (r : Bytes) (p : Feeder) (l : Bytes) (ls : List Bytes)
      → Loops fuel
      → (c == 0) ≡ true
      → length r < fuel
      → Fed p (split_of l false ls)
      → length l + length chunk + 3 + 3 * length r ≤ n
      → Ends n
          (Agrees eof (split (c ∷ r) (split_of (l ++ chunk) false ls)))
          (Round fuel chunk (c ∷ r) p)
  unfolding skip_end split split_step
  at_nul fuel chunk c r p l ls loop nul enough fed fits =
      let a : (c == 10) ≡ false = ground arith in
      let b : (c == 13) ≡ false = ground arith in
      let no_line : ends_line eof (c ∷ r) ≡ false =
        unfold ends_line is_line_end_char in rw (a, b) in
      rw (takes_part p chunk (c ∷ r) no_line, nul, a, b)
        (bind (keep_chunk-Fed_nul n most chunk c r fed (omega arith)) (omega arith) λ p' fed'.
          loop r p' ((l ++ chunk) ++ repl) ls enough fed'
            (unfold repl in omega (arith, length-append (l ++ chunk) repl, length-append l chunk)))

  feed_loop-nil : (fuel : ℕ) (p : Feeder) → 0 < fuel → feed_loop fuel eof behind [] p ≡ ok p
  unfolding feed_loop
  feed_loop-nil zero p h = elim h [ ]
  feed_loop-nil (suc fuel) p h = refl

  pub skip_lf-length : (r : Bytes) → length (skip_lf r) ≤ length r
  unfolding skip_lf
  skip_lf-length [] = omega arith
  skip_lf-length (c ∷ r) = elim (Bool-cases (c == 10)) [
    | inl h ↦ rw h (omega arith)
    | inr h ↦ rw h (omega arith)
  ]

  behind_cr :
      (fuel : ℕ) (r : Bytes) (p : Feeder) (ls : List Bytes)
      → Loops fuel
      → Fed p (split_of [] false ls)
      → length r < fuel
      → 3 * length r ≤ n
      → Ends n (Agrees eof (split r (split_of [] true ls))) (
          feed_loop fuel eof behind
            (skip_lf r)
            (if at_end r then record p { ended_with_cr = true } else p))
  unfolding at_end
  behind_cr fuel [] p ls loop fed enough fits =
      let marked = record p { ended_with_cr = true } in
      let fed' : Fed marked (split_of [] true ls) = record {
        holds = fed.holds;
        cr_eq = refl;
        lines_eq = fed.lines_eq;
      } in
      unfold skip_lf split in
      rw (feed_loop-nil fuel marked enough) (done (agrees eof (split_of [] true ls) marked fed'))
  behind_cr fuel (d ∷ r) p ls loop fed enough fits =
      let shorter = skip_lf-length (d ∷ r) in
      rw (split-skip_lf d r [] ls)
        (loop (skip_lf (d ∷ r)) p [] ls (omega (arith, shorter)) fed (omega (arith, shorter)))

  at_line_end :
      (fuel : ℕ) (chunk : Bytes) (c : ℕ) (r : Bytes) (p : Feeder) (l : Bytes) (ls : List Bytes)
      → Loops fuel
      → (c == 0) ≡ false
      → is_line_end_char c ≡ true
      → length r < fuel
      → Fed p (split_of l false ls)
      → length l + length chunk + 3 * length r ≤ n
      → Ends n
          (Agrees eof (split (c ∷ r) (split_of (l ++ chunk) false ls)))
          (Round fuel chunk (c ∷ r) p)
  unfolding skip_end split split_step
  at_line_end fuel chunk c r p l ls loop no_nul line enough fed fits = elim (Bool-cases (c == 13)) [
    | inr no_cr ↦
        let lf : (c == 10) ≡ true = unfold is_line_end_char in ground arith in
        rw (takes_line p chunk (c ∷ r) (unfold ends_line in line), no_nul, no_cr, lf)
          (bind (end_line-Fed n most chunk fed (omega arith)) (omega arith)
            λ p' fed'. loop r p' [] (ls ++ (l ++ chunk) ∷ []) enough fed' (omega arith))
    | inl cr ↦
        let no_lf : (c == 10) ≡ false = ground arith in
        let (d, e) = load-behind r in
        rw (takes_line p chunk (c ∷ r) (unfold ends_line in line), no_nul, cr, no_lf, e)
          (bind (end_line-Fed n most chunk fed (omega arith)) (omega arith)
            λ p' fed'. behind_cr fuel r p' (ls ++ (l ++ chunk) ∷ []) loop fed' enough (omega arith))
  ]

  pub feed_loop-Agrees : (fuel : ℕ) → Loops fuel
  unfolding feed_loop
  feed_loop-Agrees zero buffer p l ls enough fed fits = elim enough [ ]
  feed_loop-Agrees (suc fuel) [] p l ls enough fed fits =
      unfold split in done (agrees eof (split_of l false ls) p fed)
  feed_loop-Agrees (suc fuel) (c ∷ s) p l ls enough fed fits =
      let loop = feed_loop-Agrees fuel in
      let chunk = (cut (c ∷ s)).0 in
      let sizes = cut-length (c ∷ s) in
      rw (split-cut (c ∷ s) l ls) (elim (cut-rest (c ∷ s)) [
        | inl e ↦
            let none = ap length e in
            rw e (
              at_the_end fuel chunk p l ls loop (omega (arith, sizes, none))
                (omega (arith, sizes, none)) fed (omega (arith, sizes, none)))
        | inr (d, r, e, h) ↦
            let rest = ap length e in
            rw e (elim (Bool-cases (d == 0)) [
              | inl nul ↦
                  at_nul fuel chunk d r p l ls loop nul (omega (arith, sizes, rest)) fed
                    (omega (arith, sizes, rest))
              | inr no_nul ↦
                  at_line_end fuel chunk d r p l ls loop no_nul (unfold stops in ground arith)
                    (omega (arith, sizes, rest)) fed (omega (arith, sizes, rest))
            ])
      ])
