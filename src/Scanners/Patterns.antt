-- ===== src/Scanners/Patterns.antt =====
-- The notation of scanners.re for patterns.
use Prim.Native.String.{String}
use cmark.Prelude.{
  ℕ, zero, suc, ◌+◌, Bool, false, not, ◌&&◌, ◌||◌, List, [], ◌∷◌, ◌==◌, leb, if◌then◌else◌, codes,
  Bytes,
}
use cmark.Scanners.{Regex, void, eps, chars, seq, alt, star, Rule, Value, taken}

-- Classes of bytes.
unfoldable pub between : ℕ → ℕ → ℕ → Bool
between a b c = leb a c && leb c b

unfoldable pub one_of : Bytes → ℕ → Bool
one_of [] c = false
one_of (x ∷ xs) c = c == x || one_of xs c

unfoldable pub letter : ℕ → Bool
unfolding between
letter c = between b'a' b'z' c || between b'A' b'Z' c

unfoldable pub digit : ℕ → Bool
unfolding between
digit c = between b'0' b'9' c

unfoldable pub alphanumeric : ℕ → Bool
unfolding letter digit
alphanumeric c = letter c || digit c

unfoldable pub is_hex : ℕ → Bool
unfolding digit between
is_hex c = digit c || between b'a' b'f' c || between b'A' b'F' c

-- A byte in upper or lower case, as in the strings that re2c reads between single quotes.
unfoldable pub fold : ℕ → ℕ
unfolding between
fold c = if between b'A' b'Z' c then c + 32 else c

abbrev pub byte : ℕ → Regex
byte b = chars (λ c. c == b)

abbrev pub other_than : Bytes → Regex
other_than bs = chars (λ c. not (one_of bs c))

abbrev pub literal : Bytes → Regex
literal [] = eps
literal (x ∷ xs) = seq (byte x) (literal xs)

abbrev pub caseless : Bytes → Regex
caseless [] = eps
caseless (x ∷ xs) = seq (chars (λ c. fold c == x)) (caseless xs)

abbrev pub any_of : List Regex → Regex
any_of [] = void
any_of (r ∷ rs) = alt r (any_of rs)

abbrev pub words : List String → Regex
words [] = void
words (w ∷ ws) = alt (caseless (codes w)) (words ws)

abbrev pub optional : Regex → Regex
optional r = alt eps r

abbrev pub plus : Regex → Regex
plus r = seq r (star r)

-- `r{0,n}`, `r{n}` in front of `s`
abbrev pub up_to : ℕ → Regex → Regex
up_to zero r = eps
up_to (suc n) r = alt eps (seq r (up_to n r))

abbrev pub times : ℕ → Regex → Regex → Regex
times zero r s = s
times (suc n) r s = seq r (times n r s)

abbrev pub sequence : List Regex → Regex
sequence [] = eps
sequence (r ∷ rs) = seq r (sequence rs)

abbrev pub rule : Regex → Value → Rule
rule r v = record { pattern = r; context = eps; value = v }

abbrev pub before : Regex → Regex → Rule
before r t = record { pattern = r; context = t; value = taken }
