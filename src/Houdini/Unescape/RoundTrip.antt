-- ===== src/Houdini/Unescape/RoundTrip.antt =====
-- `houdini_unescape_html_f` gives back what `houdini_escape_html0` has escaped.
use mathlib.Core.Path.{subst}
use cmark.Prelude.{
  ℕ, zero, suc, ◌+◌, ◌≤◌, ◌<◌, ◌≡◌, refl, sym, ap, ◌∙◌, inl, inr, Bool, true, false, not, ◌&&◌,
  List, [], ◌∷◌, ◌++◌, append_assoc, append-nil, length, length-append, take, drop, take-append,
  drop-append, Bytes, Run, ok, ◌>>=◌, ◌==◌, ltb, leb, if◌then◌else◌, Bool-cases, arith,
}
use cmark.Alloc.{Libc}
use cmark.Buffer.{Strbuf, int32_max, grow, put, putc}
use cmark.Buffer.Layout.{Layout, Holds, Ends, done, bind, mono}
use cmark.Buffer.Layout.Grow.{grow-Grown}
use cmark.Buffer.Layout.Append.{put-cons, put-Holds}
use cmark.Houdini.{
  run_length, html_safe, html_literal, escape_code, html_escape_table, html_escapes,
}
use cmark.Houdini.Loop.{escaped}
use cmark.Houdini.Html.{html_piece, html_escaped}
use cmark.Houdini.HtmlRead.{special, special_cases, safe-ne-amp}
use cmark.Houdini.Unescape.{
  Entity, unescape_ent, unescape_html_loop, unescape_html, unescape_html_f,
}
use cmark.Houdini.Unescape.Read.{
  IsStandard, Reads, read_quot, read_amp, read_lt, read_gt, read_apos, read_slash,
}
use cmark.Utf8.Valid.All.{AllBytes}

-- A text with no ampersand.
abbrev Plain : Bytes → Type 0
Plain [] = Unit {0}
Plain (c ∷ u) = ((c == b'&') ≡ false) × Plain u

abbrev not_amp : ℕ → Bool
not_amp d = not (d == b'&')

run_length-Plain_end : (u : Bytes) → Plain u → run_length not_amp u ≡ length u
unfolding run_length
run_length-Plain_end [] h = refl
run_length-Plain_end (c ∷ u) h = rw (h.0) (omega (arith, run_length-Plain_end u h.1))

run_length-Plain : (u rest : Bytes) → Plain u → run_length not_amp (u ++ b'&' ∷ rest) ≡ length u
unfolding run_length
run_length-Plain [] rest h = refl
run_length-Plain (c ∷ u) rest h = rw (h.0) (omega (arith, run_length-Plain u rest h.1))

module _ ⦃libc : Libc⦄ where
  -- Growing keeps what a buffer holds, whatever the size asked for.
  grow_any :
      {b : Strbuf} {s rest : Bytes} (n : ℕ)
      → Layout b s rest
      → 0 < n
      → Ends n (λ b'. (rest' : Bytes) × Layout b' s rest') (grow b n)
  grow_any {b} {s} {rest} n l some_n = elim (Bool-cases (leb (length s) n)) [
    | inl fits ↦
        mono (grow-Grown n l (ground arith) some_n) (omega arith) λ b' g. (g.rest, g.layout)
    | inr more ↦
        let asked : ltb 0 n ≡ true = ground arith in
        let small : ltb n b.asize ≡ true =
          ground (arith, l.owned, l.room, ap length l.memory, length-append s rest) in
        unfold grow in rw (asked, small) (done (rest, l))
  ]

  module _ (entities : List Entity) where
    -- A text of plain parts and references, and what it stands for.
    data Segments : Bytes → Bytes → Type 0 where
      plain_end : (u : Bytes) → Plain u → Segments u u
      more :
          (u : Bytes) (c : ℕ) (tail t src : Bytes)
          → Plain u
          → Reads entities c tail
          → 0 < length tail
          → Segments t src
          → Segments (u ++ b'&' ∷ (tail ++ t)) (u ++ c ∷ src)

    Segments-cons :
        (c : ℕ) (t src : Bytes) → (c == b'&') ≡ false → Segments t src → Segments (c ∷ t) (c ∷ src)
    Segments-cons c _ _ other (plain_end u h) = plain_end (c ∷ u) (other, h)
    Segments-cons c _ _ other (more u d tail t src h reads some_tail rest) =
        more (c ∷ u) d tail t src (other, h) reads some_tail rest

    -- The result of the loop: whether anything was put, and what the buffer holds.
    abbrev Unescaped : Bool → Bytes → Bytes → Bytes → Bool × Strbuf → Type 0
    Unescaped first s t src (true, b) = Holds b (s ++ src)
    Unescaped first s t src (false, b) = (first ≡ true) × Holds b s × (t ≡ src)

    -- A round, on a text that is not empty.
    abbrev after_plain : ℕ → ℕ → Strbuf → Bytes → Run (Bool × Strbuf)
    after_plain fuel size ob r = elim r [
      | [] ↦ ok (true, ob)
      | d ∷ ds ↦ unescape_ent entities ob ds >>= λ r.
          (if r.0 == 0 then putc r.1 b'&' else ok r.1) >>= λ ob'.
          unescape_html_loop entities fuel false size ob' (drop r.0 ds)
    ]

    abbrev round : ℕ → Bool → ℕ → Strbuf → Bytes → Run (Bool × Strbuf)
    round fuel first size ob t =
        let n = run_length not_amp t in
        if ltb 0 n && first && leb size n
        then ok (false, ob)
        else (if ltb 0 n && first then grow ob size else ok ob) >>= λ ob₁.
            (if ltb 0 n then put ob₁ (take n t) else ok ob₁) >>= λ ob₂.
            after_plain fuel size ob₂ (drop n t)

    loop-round :
        (fuel : ℕ) (first : Bool) (size : ℕ) (ob : Strbuf) (t : Bytes)
        → 0 < length t
        → unescape_html_loop entities (suc fuel) first size ob t ≡ round fuel first size ob t
    unfolding unescape_html_loop
    loop-round fuel first size ob [] h = absurd (omega arith)
    loop-round fuel first size ob (c ∷ cs) h = refl

    -- The plain part is put as it is.
    put_plain :
        {C : Type 0} {Q : C → Type 0} {b : Strbuf} {s : Bytes} {m : ℕ} (first : Bool) (size : ℕ)
        (u : Bytes) (k : Strbuf → Run C)
        → Holds b s
        → length s + length u ≤ int32_max
        → length s + length u ≤ m
        → (first ≡ true → size ≤ m)
        → (first ≡ true → length u ≤ size)
        → ((b' : Strbuf) → Holds b' (s ++ u) → Ends m Q (k b'))
        → Ends m Q (
            (if ltb 0 (length u) && first then grow b size else ok b) >>= λ ob₁.
            (if ltb 0 (length u) then put ob₁ u else ok ob₁) >>= k)
    put_plain {b} {s} first size [] k h fits le within long next = next b (rw append-nil h)
    put_plain {b} {s} false size (c ∷ u) k h fits le within long next =
        let some_u : ltb 0 (suc (length u)) ≡ true = ground arith in
        rw some_u (bind (put-Holds (c ∷ u) h fits) le next)
    put_plain {b} {s} true size (c ∷ u) k h fits le within long next =
        let some_u : ltb 0 (suc (length u)) ≡ true = ground arith in
        rw some_u (
          bind (grow_any size h.layout (omega (arith, long refl))) (within refl)
            λ b' l. bind (put-cons c u l.1 fits) le next)

    -- The rest of the loop behind the first reference.
    from_rest :
        (first : Bool) (s u : Bytes) (c : ℕ) (tail t src : Bytes)
        → (r : Bool × Strbuf) → Unescaped false ((s ++ u) ++ c ∷ []) t src r
        → Unescaped first s (u ++ b'&' ∷ tail) (u ++ c ∷ src) r
    from_rest first s u c tail t src (true, b) h =
        subst (λ x. Holds b x) (append_assoc (s ++ u) (c ∷ []) src ∙ append_assoc s u (c ∷ src)) h
    from_rest first s u c tail t src (false, b) h = cc (h.0)

    loop-Unescaped :
        (fuel : ℕ) (first : Bool) (size : ℕ) (b : Strbuf) (s t src : Bytes)
        → Segments t src
        → length t < fuel
        → Holds b s
        → length s + length t ≤ int32_max
        → (first ≡ true → size ≡ length t)
        → Ends
            (length s + length t)
            (Unescaped first s t src)
            (unescape_html_loop entities fuel first size b t)
    loop-Unescaped zero first size b s t src g enough h fits whole = absurd (omega arith)
    loop-Unescaped (suc fuel) first size b s _ _ (plain_end [] p) enough h fits whole =
        unfold unescape_html_loop in done (subst (λ x. Holds b x) (sym (append-nil s)) h)
    loop-Unescaped (suc fuel) true size b s _ _ (plain_end (c ∷ u) p) enough h fits whole =
        let n = run_length-Plain_end (c ∷ u) p in
        let all_plain : (ltb 0 (suc (length u)) && true && leb size (suc (length u))) ≡ true =
          ground (arith, whole refl) in
        rw (loop-round fuel true size b (c ∷ u) (omega arith), n, all_plain) (done (refl, h, refl))
    loop-Unescaped (suc fuel) false size b s _ _ (plain_end (c ∷ u) p) enough h fits whole =
        let n = run_length-Plain_end (c ∷ u) p in
        let kept : take (length (c ∷ u)) (c ∷ u) ≡ c ∷ u =
          rw append-nil at (take-append (c ∷ u) []) in
        let left : drop (length (c ∷ u)) (c ∷ u) ≡ [] = rw append-nil at (drop-append (c ∷ u) []) in
        let goes_on : (ltb 0 (length (c ∷ u)) && false && leb size (length (c ∷ u))) ≡ false =
          ground arith in
        rw (loop-round fuel false size b (c ∷ u) (omega arith), n, goes_on, kept, left)
          (put_plain false size (c ∷ u) (λ b'. after_plain fuel size b' []) h fits (omega arith)
            (λ e. cc e) (λ e. cc e) λ b' h'. done h')
    loop-Unescaped (suc fuel) first size b s _ _ (more u c tail t src p reads some_tail g) enough h
          fits whole =
        let text = u ++ b'&' ∷ (tail ++ t) in
        let n = run_length-Plain u (tail ++ t) p in
        let long : length text ≡ length u + suc (length tail + length t) =
          omega (arith, length-append u (b'&' ∷ (tail ++ t)), length-append tail t) in
        let goes_on : (ltb 0 (length u) && first && leb size (length u)) ≡ false =
          ground (arith, whole, long) in
        let kept = take-append u (b'&' ∷ (tail ++ t)) in
        let left = drop-append u (b'&' ∷ (tail ++ t)) in
        rw (loop-round fuel first size b text (omega (arith, long)), n, goes_on, kept, left)
          (put_plain first size u (λ b'. after_plain fuel size b' (b'&' ∷ (tail ++ t))) h
            (omega (arith, fits, long)) (omega (arith, long)) (λ e. omega (arith, whole e))
            (λ e. omega (arith, whole e, long))
            λ b₂ h₂.
              let joined = length-append s u in
              let read : Ends (length s + length text)
                  (λ r. (r.0 ≡ length tail) × Holds r.1 ((s ++ u) ++ c ∷ []))
                  (unescape_ent entities b₂ (tail ++ t)) =
                rw (reads b₂ t) (
                  bind (put-Holds (c ∷ []) h₂ (omega (arith, fits, long, joined)))
                    (omega (arith, long, joined)) λ b₃ h₃. done (refl, h₃)) in
              bind read (omega arith) λ r found.
                let moved : (r.0 == 0) ≡ false = ground (arith, found.0) in
                let rest_is : drop r.0 (tail ++ t) ≡ t = rw (found.0) (drop-append tail t) in
                let count = length-append (s ++ u) (c ∷ []) in
                rw (moved, rest_is)
                  (mono
                    (loop-Unescaped fuel false size r.1 ((s ++ u) ++ c ∷ []) t src g
                      (omega (arith, long)) found.1 (omega (arith, fits, long, count, joined))
                      (λ e. cc e))
                    (omega (arith, long, count, joined)) (from_rest first s u c (tail ++ t) t src)))

    -- The unit that stands for a byte, in front of a text of segments.
    abbrev Extends : Bool → ℕ → Type 0
    Extends secure c =
        (t src : Bytes)
        → Segments t src
        → Segments ((if html_safe c then c ∷ [] else html_piece secure c) ++ t) (c ∷ src)

    as_reference :
        (secure : Bool) (c : ℕ) (tail : Bytes)
        → (if html_safe c then c ∷ [] else html_piece secure c) ≡ b'&' ∷ tail
        → Reads entities c tail
        → 0 < length tail
        → Extends secure c
    as_reference secure c tail piece reads some_tail t src g =
        rw piece (more [] c tail t src tt reads some_tail g)

    as_itself :
        (secure : Bool) (c : ℕ)
        → (if html_safe c then c ∷ [] else html_piece secure c) ≡ c ∷ []
        → (c == b'&') ≡ false
        → Extends secure c
    as_itself secure c piece other t src g = rw piece (Segments-cons c t src other g)

    module _ (std : IsStandard entities) where
      special-Extends : (secure : Bool) (c : ℕ) → special c ≡ true → Extends secure c
      unfolding html_piece html_literal escape_code html_escape_table html_escapes
      special-Extends secure c found = elim (special_cases c found) [
        | inl e ↦
            subst (Extends secure) (sym e)
              (as_reference secure b'"' _ refl (read_quot entities std) (omega arith))
        | inr (inl e) ↦
            subst (Extends secure) (sym e)
              (as_reference secure b'&' _ refl (read_amp entities std) (omega arith))
        | inr (inr (inl e)) ↦ subst (Extends secure) (sym e) (apos secure)
        | inr (inr (inr (inl e))) ↦ subst (Extends secure) (sym e) (slash secure)
        | inr (inr (inr (inr (inl e)))) ↦
            subst (Extends secure) (sym e)
              (as_reference secure b'<' _ refl (read_lt entities std) (omega arith))
        | inr (inr (inr (inr (inr e)))) ↦
            subst (Extends secure) (sym e)
              (as_reference secure b'>' _ refl (read_gt entities std) (omega arith))
      ]
        where
          apos : (secure : Bool) → Extends secure b'\''
          apos true =
              as_reference true b'\'' (b'#' ∷ b'3' ∷ b'9' ∷ b';' ∷ []) refl (read_apos entities std)
                (omega arith)
          apos false = as_itself false b'\'' refl refl

          slash : (secure : Bool) → Extends secure b'/'
          slash true =
              as_reference true b'/' (b'#' ∷ b'4' ∷ b'7' ∷ b';' ∷ []) refl (read_slash entities std)
                (omega arith)
          slash false = as_itself false b'/' refl refl

      unit-Extends : (secure : Bool) (c : ℕ) → c < 256 → Extends secure c
      unit-Extends secure c small = elim (Bool-cases (special c)) [
        | inl found ↦ special-Extends secure c found
        | inr ordinary ↦
            let safe = safe-ne-amp c small ordinary in
            as_itself secure c (rw safe refl) (ground arith)
      ]

      escaped-Segments :
          (secure : Bool) (src : Bytes) → AllBytes src → Segments (html_escaped secure src) src
      unfolding escaped
      escaped-Segments secure [] h = plain_end [] tt
      escaped-Segments secure (c ∷ cs) h =
          unit-Extends secure c h.0 (html_escaped secure cs) cs (escaped-Segments secure cs h.1)

      -- With a sorted table of entities that has the names quot, amp, lt and gt,
      -- houdini_unescape_html_f appends the original bytes when it is given the text that
      -- houdini_escape_html0 writes for them, in either mode. The escaped text and what the buffer
      -- holds must be no longer than INT32_MAX together. Other outcomes are only that memory runs
      -- out, or that the code aborts on a length past its limit.
      pub unescape_html_f-html_escaped :
          (secure : Bool) (b : Strbuf) (s src : Bytes)
          → Holds b s
          → AllBytes src
          → length s + length (html_escaped secure src) ≤ int32_max
          → Ends
              (length s + length (html_escaped secure src))
              (λ b'. Holds b' (s ++ src))
              (unescape_html_f entities b (html_escaped secure src))
      unfolding unescape_html_f unescape_html
      unescape_html_f-html_escaped secure b s src h bytes fits =
          let t = html_escaped secure src in
          bind
            (loop-Unescaped (length t + 1) true (length t) b s t src
              (escaped-Segments secure src bytes) (omega arith) h fits (λ e. refl))
            (omega arith) (finish s t src fits)
        where
          finish :
              (s t src : Bytes)
              → length s + length t ≤ int32_max
              → (r : Bool × Strbuf) → Unescaped true s t src r
              → Ends
                  (length s + length t)
                  (λ b'. Holds b' (s ++ src))
                  (if r.0 then ok r.1 else put r.1 t)
          finish s t src fits (true, b) h = done h
          finish s t src fits (false, b) h =
              mono (put-Holds t h.1 fits) (omega arith)
                λ b' h'. subst (λ x. Holds b' (s ++ x)) h.2 h'
