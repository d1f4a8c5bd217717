-- ===== src/Prelude/Text.antt =====
-- String literals as bytes, and how `%d` prints an int.
use Prim.Native.Char.{code}
use Prim.Native.String.{String}
use Prim.Native.Nat.{ℕ, zero, suc, ◌+◌, ◌/◌, ◌%◌}
use mathlib.Core.List.{[], ◌∷◌, ◌++◌}
use cmark.Prelude.Tests.{ltb, if◌then◌else◌}
use cmark.Prelude.Memory.{Bytes}
use cmark.Prelude.Int.{ℤ, pos, negsuc}

-- Code points; the literals are ASCII.
abbrev pub codes : String → Bytes
codes String.[] = []
codes (String.◌∷◌ c s) = code c ∷ codes s

unfoldable pub digits : ℕ → ℕ → Bytes
digits zero n = []
digits (suc fuel) n =
    let rest = digits fuel (n / 10) in
    if ltb n 10 then (48 + n) ∷ [] else rest ++ (48 + n % 10) ∷ []

-- `%d`; an int has at most ten digits.
unfoldable pub decimal : ℤ → Bytes
decimal (pos n) = digits 10 n
decimal (negsuc n) = b'-' ∷ digits 10 (n + 1)
