-- ===== src/Prelude/Outcome.antt =====
-- The outcome of a run of C code. `aborted` stands for a call of `abort()`, with
-- the reason: an allocation was refused, or a size is past the limit that the code checks.
-- `fault` is undefined behaviour: an access outside an allocation, a null pointer followed, a
-- signed overflow, a union member read that is not the one stored, or a failed `assert`.
-- `out_of_fuel` ends a loop that has made more rounds than the model gives it.
use mathlib.Core.Bool.{Bool, true, false}
use mathlib.Core.Path.{◌≡◌, refl}

pub data Abort : Type 0 where
  out_of_memory too_large : Abort

pub data Run {ℓ} (A : Type ℓ) : Type ℓ where
  ok : A → Run A
  aborted : Abort → Run A
  fault : Run A
  out_of_fuel : Run A

infixl 5 ◌>>=◌ ◌>>◌
abbrev pub ◌>>=◌ {ℓ κ} : {A : Type ℓ} {B : Type κ} → Run A → (A → Run B) → Run B
ok a >>= f = f a
aborted e >>= f = aborted e
fault >>= f = fault
out_of_fuel >>= f = out_of_fuel

abbrev pub ◌>>◌ {ℓ} : {B : Type ℓ} → Run (Unit {0}) → Run B → Run B
m >> k = m >>= λ _. k

-- `assert(b)`, and the checks that a run with no undefined behaviour passes.
abbrev pub require : Bool → Run (Unit {0})
require true = ok tt
require false = fault

-- A run that returns a value with `P`.
pub data Returns {A : Type 0} (P : A → Type 0) : Run A → Type 0 where
  returns : {a : A} → P a → Returns P (ok a)

pub Returns-bind :
    {A B : Type 0} {P : A → Type 0} {Q : B → Type 0} {r : Run A} {k : A → Run B}
    → Returns P r
    → ((a : A) → P a → Returns Q (k a))
    → Returns Q (r >>= k)
Returns-bind (returns p) next = next _ p

pub Returns-mono :
    {A : Type 0} {P Q : A → Type 0} {r : Run A} → Returns P r → ((a : A) → P a → Q a) → Returns Q r
Returns-mono (returns p) weaken = returns (weaken _ p)

-- Both parts of a run that returns have returned.
pub bind_eq_ok :
    {A B : Type 0} (r : Run A) (k : A → Run B) {b : B}
    → (r >>= k) ≡ ok b
    → (a : A) × (r ≡ ok a) × (k a ≡ ok b)
bind_eq_ok (ok a) k e = (a, refl, e)
bind_eq_ok (aborted x) k e = cc
bind_eq_ok fault k e = cc
bind_eq_ok out_of_fuel k e = cc

pub ok_eq : {A : Type 0} {a b : A} → ok a ≡ ok b → a ≡ b
ok_eq e = cc
