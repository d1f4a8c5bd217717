-- ===== src/Scanners/Picked.antt =====
-- What a scanner returns: the value of the first of the rules with the longest match.
use cmark.Prelude.{
  ℕ, zero, suc, ◌≤◌, ◌<◌, ◌≡◌, refl, sym, ap, Bool, true, false, inl, inr, Option, none, some, List,
  [], ◌∷◌, ◌++◌, Bool-cases, ltb, length, take, drop, load-append, store-append, Bytes, ok, ◌>>=◌,
  bind_eq_ok, ok_eq, arith,
}
use mathlib.Core.Path.{subst}
use cmark.Chunk.{Chunk}
use cmark.Scanners.{
  Regex, longest, Rule, Value, taken, constant, whole, or_zero, read_value, value_of, Match, better,
  with_rule, pick, result, run_scanner, scan_memory, scan_at,
}
use cmark.Scanners.Language.{Matches}
use cmark.Scanners.Longest.{IsLongest, longest-IsLongest}
use cmark.Scanners.InBounds.{no_nul, longest-returns}

abbrev pub AllRules : (Rule → Type 0) → List Rule → Type 0
AllRules P [] = Unit {0}
AllRules P (r ∷ rs) = P r × AllRules P rs

AllRules-mono :
    {P Q : Rule → Type 0} (rs : List Rule)
    → ((r : Rule) → P r → Q r)
    → AllRules P rs
    → AllRules Q rs
AllRules-mono [] weaken h = tt
AllRules-mono (r ∷ rs) weaken h = (weaken r h.0, AllRules-mono rs weaken h.1)

AllRules-append :
    (P : Rule → Type 0) (rs ss : List Rule) → AllRules P rs → AllRules P ss → AllRules P (rs ++ ss)
AllRules-append P [] ss h k = k
AllRules-append P (r ∷ rs) ss h k = (h.0, AllRules-append P rs ss h.1 k)

-- No match of the rule is as long as `n`.
abbrev pub IsBelow : Bytes → ℕ → Rule → Type 0
IsBelow m n r = (k : ℕ) → k ≤ length m → Matches (whole r) (take k m) → k < n

-- Nothing matches; or a rule has a match of the length `n`, in front of it all matches are shorter,
-- and none is longer.
abbrev pub IsPicked : List Rule → Bytes → Match → Type 0
IsPicked rs m none = AllRules (λ r. IsLongest (whole r) m none) rs
IsPicked rs m (some (n, v)) =
    (before : List Rule) × (r : Rule) × (after : List Rule) × (rs ≡ before ++ r ∷ after)
    × IsLongest (whole r) m (some n)
    × (value_of r m ≡ ok v)
    × AllRules (IsBelow m n) before
    × AllRules (IsBelow m (suc n)) after

with_rule-IsPicked :
    (r : Rule) (rs : List Rule) (m : Bytes) (o : Option ℕ) (v : ℕ) (later : Match)
    → IsLongest (whole r) m o
    → value_of r m ≡ ok v
    → IsPicked rs m later
    → IsPicked (r ∷ rs) m (with_rule o v later)
unfolding with_rule better
with_rule-IsPicked r rs m none v none l e p = (l, p)
with_rule-IsPicked r rs m none v (some (k, w)) l e (before, q, after, same, match, val, low, high) =
    (
      r ∷ before,
      q,
      after,
      ap (λ t. r ∷ t) same,
      match,
      val,
      ((λ j le h. absurd (l j le h)), low),
      high,
    )
with_rule-IsPicked r rs m (some n) v none l e p =
    ([], r, rs, refl, l, e, tt, AllRules-mono rs (λ q h j le g. absurd (h j le g)) p)
with_rule-IsPicked r rs m (some n) v (some (k, w)) l e
      (before, q, after, same, match, val, low, high) =
    elim (Bool-cases (ltb n k)) [
      | inl h ↦
          let shorter : n < k = ground arith in
          let under : IsBelow m k r = λ j le g. omega (arith, l.2 j le g) in
          rw h (r ∷ before, q, after, ap (λ t. r ∷ t) same, match, val, (under, low), high)
      | inr h ↦
          let longer : k ≤ n = ground arith in
          let first : AllRules (IsBelow m (suc n)) before =
            AllRules-mono before
              (λ (s : Rule) (g : IsBelow m k s). λ j le x. omega (arith, g j le x)) low in
          let last : AllRules (IsBelow m (suc n)) after =
            AllRules-mono after
              (λ (s : Rule) (g : IsBelow m (suc k) s). λ j le x. omega (arith, g j le x)) high in
          let here : IsBelow m (suc n) q = λ j le x. omega (arith, match.2 j le x) in
          rw h (
            [],
            r,
            rs,
            refl,
            l,
            e,
            tt,
            subst (AllRules (IsBelow m (suc n))) (sym same)
                (AllRules-append (IsBelow m (suc n)) before (q ∷ after) first (here, last)),
          )
    ]

pub pick-IsPicked : (rs : List Rule) (m : Bytes) (o : Match) → pick rs m ≡ ok o → IsPicked rs m o
unfolding pick
pick-IsPicked [] m o e = subst (IsPicked [] m) (ok_eq e) tt
pick-IsPicked (r ∷ rs) m o e =
    let (a, e₁, f₁) =
      bind_eq_ok (longest (whole r) m)
        (λ a. value_of r m >>= λ v. pick rs m >>= λ later. ok (with_rule a v later)) e in
    let (v, e₂, f₂) =
      bind_eq_ok (value_of r m) (λ v. pick rs m >>= λ later. ok (with_rule a v later)) f₁ in
    let (later, e₃, f₃) = bind_eq_ok (pick rs m) (λ later. ok (with_rule a v later)) f₂ in
    subst (IsPicked (r ∷ rs) m) (ok_eq f₃) (
      with_rule-IsPicked r rs m a v later (longest-IsLongest (whole r) m a e₁) e₂
        (pick-IsPicked rs m later e₃))

-- The patterns and contexts of the rules hold no NUL.
abbrev pub NulFree : Rule → Type 0
NulFree r = (no_nul r.pattern ≡ true) × (no_nul r.context ≡ true)

whole-no_nul : (r : Rule) → NulFree r → no_nul (whole r) ≡ true
unfolding no_nul
whole-no_nul r h = rw (h.0, h.1)

read_value-returns :
    (x : Value) (r : Regex) (s rest : Bytes)
    → no_nul r ≡ true
    → (v : ℕ) × (read_value x r (s ++ 0 ∷ rest) ≡ ok v)
unfolding read_value
read_value-returns taken r s rest h = let (o, f) = longest-returns r s rest h in (or_zero o, rw f)
read_value-returns (constant k) r s rest h = (k, refl)

pick-returns :
    (rs : List Rule) (s rest : Bytes)
    → AllRules NulFree rs
    → (o : Match) × (pick rs (s ++ 0 ∷ rest) ≡ ok o)
unfolding pick
pick-returns [] s rest h = (none, refl)
pick-returns (r ∷ rs) s rest h =
    let (a, e) = longest-returns (whole r) s rest (whole-no_nul r h.0) in
    let (v, f) = read_value-returns r.value r.pattern s rest h.0.0 in
    let (later, g) = pick-returns rs s rest h.1 in (with_rule a v later, rw (e, f, g))

drop-append_le : (n : ℕ) (s r : Bytes) → n ≤ length s → drop n (s ++ r) ≡ drop n s ++ r
drop-append_le zero s r h = refl
drop-append_le (suc n) [] r h = absurd (omega arith)
drop-append_le (suc n) (c ∷ s) r h = drop-append_le n s r (omega arith)

-- A chunk of a text in a memory that goes on behind it.
abbrev pub part_of : Bytes → ℕ → Bytes → Bool → Chunk
part_of text lim rest owned = record {
  bytes = some (text ++ lim ∷ rest);
  len = length text;
  alloc = owned;
}

-- For rules whose patterns match no NUL, which excludes the five scanners for the end of an HTML
-- block, and at an offset in a text with at least one byte behind it, _scan_at returns the value of
-- the first of the rules with the longest match in the rest of the text, or 0 where none matches,
-- whatever follows the text, and leaves the chunk as it was.
pub scan_at-IsPicked :
    (rs : List Rule) (text rest : Bytes) (lim offset : ℕ) (owned : Bool)
    → AllRules NulFree rs
    → offset ≤ length text
    → (o : Match) × IsPicked rs (drop offset text ++ 0 ∷ rest) o
      × (scan_at rs (part_of text lim rest owned) offset
          ≡ ok (result o, part_of text lim rest owned))
unfolding scan_at scan_memory run_scanner
scan_at-IsPicked rs text rest lim offset owned h inside =
    let (o, e) = pick-returns rs (drop offset text) rest h in
    let within : ltb (length text) offset ≡ false = ground arith in
    (
      o,
      pick-IsPicked rs (drop offset text ++ 0 ∷ rest) o e,
      rw (
        within,
        load-append text rest lim,
        store-append text rest lim 0,
        drop-append_le offset text (0 ∷ rest) inside,
        e,
        store-append text rest 0 lim,
      ),
    )
