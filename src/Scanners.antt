-- ===== src/Scanners.antt =====
-- scanners.re, from which re2c generates scanners.c: the patterns as regular expressions, how a
-- scanner picks among its rules, and `_scan_at`. A scanner reads memory byte by byte as long as a
-- longer match is possible; a read behind the end of the memory is a fault.
use cmark.Prelude.{
  ℕ, suc, Bool, true, false, not, ◌&&◌, ◌||◌, Option, none, some, List, [], ◌∷◌, ltb, if◌then◌else◌,
  Bytes, drop, load, store, Run, ok, ◌>>=◌, fault,
}
use cmark.Chunk.{Chunk}
pub mod Patterns
pub mod Rules
pub mod Table
pub mod Language
pub mod Longest
pub mod InBounds
pub mod Picked
pub mod Overread

pub data Regex : Type 0 where
  void eps : Regex
  chars : (ℕ → Bool) → Regex
  seq alt : Regex → Regex → Regex
  star : Regex → Regex

unfoldable pub nullable : Regex → Bool
nullable void = false
nullable eps = true
nullable (chars p) = false
nullable (seq a b) = nullable a && nullable b
nullable (alt a b) = nullable a || nullable b
nullable (star a) = true

-- The alternative and the sequence, where a part that matches nothing is left out.
unfoldable pub is_void : Regex → Bool
is_void void = true
is_void _ = false

unfoldable pub is_eps : Regex → Bool
is_eps eps = true
is_eps _ = false

unfoldable pub either : Regex → Regex → Regex
either a b = if is_void a then b else if is_void b then a else alt a b

unfoldable pub chain : Regex → Regex → Regex
chain a b = if is_void a then void else if is_eps a then b else seq a b

-- What may follow the byte `c`: a step of the automaton.
unfoldable pub deriv : ℕ → Regex → Regex
unfolding either chain is_void is_eps nullable
deriv c void = void
deriv c eps = void
deriv c (chars p) = if p c then eps else void
deriv c (seq a b) =
    let after = deriv c b in either (chain (deriv c a) b) (if nullable a then after else void)
deriv c (alt a b) = either (deriv c a) (deriv c b)
deriv c (star a) = chain (deriv c a) (star a)

-- Whether no text matches, and whether a nonempty one may.
unfoldable pub dead : Regex → Bool
dead void = true
dead eps = false
dead (chars p) = false
dead (seq a b) = dead a || dead b
dead (alt a b) = dead a && dead b
dead (star a) = false

unfoldable pub can_go : Regex → Bool
unfolding dead
can_go void = false
can_go eps = false
can_go (chars p) = true
can_go (seq a b) = (can_go a && not (dead b)) || (not (dead a) && can_go b)
can_go (alt a b) = can_go a || can_go b
can_go (star a) = can_go a

-- The length of the longest match at the start of the memory, found so far.
unfoldable pub or_here : Regex → Option ℕ → Option ℕ
or_here r (some n) = some (suc n)
or_here r none = if nullable r then some 0 else none

unfoldable pub stop_here : Regex → Option ℕ
stop_here r = if nullable r then some 0 else none

unfoldable pub longest : Regex → Bytes → Run (Option ℕ)
unfolding deriv can_go nullable or_here stop_here
longest r [] = if can_go r then fault else ok (stop_here r)
longest r (c ∷ m) =
    let rest = longest (deriv c r) m >>= λ o. ok (or_here r o) in
    if can_go r then rest else ok (stop_here r)

-- A rule has a pattern, possibly a trailing context, and the value that it returns: the number of
-- bytes of the pattern alone, or a constant. The contexts of scanners.re begin with no byte that
-- could belong to the pattern, so the pattern alone is matched as far as it goes.
pub data Value : Type 0 where
  taken : Value
  constant : ℕ → Value

pub record Rule : Type 0 where
  pub pattern : Regex
  pub context : Regex
  pub value : Value

abbrev pub whole : Rule → Regex
whole r = seq r.pattern r.context

unfoldable pub or_zero : Option ℕ → ℕ
or_zero none = 0
or_zero (some n) = n

unfoldable pub read_value : Value → Regex → Bytes → Run ℕ
unfolding longest or_zero
read_value taken r m = longest r m >>= λ o. ok (or_zero o)
read_value (constant k) r m = ok k

abbrev pub value_of : Rule → Bytes → Run ℕ
value_of r m = read_value r.value r.pattern m

-- The longest match of all rules, and the value of the first rule that has it.
abbrev pub Match : Type 0
Match = Option (ℕ × ℕ)

unfoldable pub better : ℕ → ℕ → Match → Match
better n v none = some (n, v)
better n v (some (k, w)) = if ltb n k then some (k, w) else some (n, v)

unfoldable pub with_rule : Option ℕ → ℕ → Match → Match
unfolding better
with_rule none v later = later
with_rule (some n) v later = better n v later

unfoldable pub pick : List Rule → Bytes → Run Match
unfolding read_value with_rule
pick [] m = ok none
pick (r ∷ rs) m = do
  o ← longest (whole r) m
  v ← value_of r m
  later ← pick rs m
  ok (with_rule o v later)

-- The rule `.? { return 0; }` at the end of every scanner matches at most one byte.
unfoldable pub result : Match → ℕ
result none = 0
result (some (n, v)) = v

unfoldable pub run_scanner : List Rule → Bytes → Run ℕ
unfolding pick result
run_scanner rs m = pick rs m >>= λ best. ok (result best)

-- `_scan_at` on a chunk whose pointer is not null: the byte behind the chunk is a NUL meanwhile. The
-- result, and the memory afterwards.
unfoldable pub scan_memory : List Rule → Bytes → ℕ → ℕ → Run (ℕ × Bytes)
unfolding run_scanner
scan_memory rs m len offset = do
  lim ← load m len
  m' ← store m len 0
  res ← run_scanner rs (drop offset m')
  m'' ← store m' len lim
  ok (res, m'')

unfoldable pub scan_at : List Rule → Chunk → ℕ → Run (ℕ × Chunk)
unfolding scan_memory
scan_at rs c offset = elim c.bytes [
  | none ↦ ok (0, c)
  | some m ↦
      if ltb c.len offset
      then ok (0, c)
      else (scan_memory rs m c.len offset >>= λ r. ok (r.0, record c { bytes = some r.1 }))
]

-- The result alone.
unfoldable pub scan : List Rule → Chunk → ℕ → Run ℕ
unfolding scan_at
scan rs c offset = scan_at rs c offset >>= λ r. ok r.0
