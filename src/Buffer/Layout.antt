-- ===== src/Buffer/Layout.antt =====
-- What a buffer of buffer.c stands for, and how the operations may end.
use cmark.Prelude.{
  ℕ, zero, suc, ◌+◌, ◌≤◌, ◌<◌, ◌≡◌, ◌⊎◌, inl, inr, refl, ◌∷◌, [], ◌++◌, length, Bytes, Run, ok,
  aborted, Returns, returns, out_of_memory, too_large, ◌>>=◌, arith,
}
use cmark.Buffer.{Strbuf, half_max, initbuf, empty}
pub mod Grow
pub mod Append
pub mod InPlace
pub mod Detach
pub mod Clear

-- The most that `cmark_strbuf_grow` ever allocates.
abbrev pub max_asize : ℕ
max_asize = 1610612744

-- The memory `p` is an allocation of `asize` bytes, or the static byte while there is none.
abbrev pub IsOwned : ℕ → Bytes → Type 0
IsOwned asize p = (asize ≡ length p) ⊎ ((asize ≡ 0) × (p ≡ initbuf))

-- The memory of `b` starts with the `size` bytes `s`, with at least one byte of room behind them.
pub record Layout (b : Strbuf) (s rest : Bytes) : Type 0 where
  pub memory : b.ptr ≡ s ++ rest
  pub size_eq : b.size ≡ length s
  pub room : 0 < length rest
  pub owned : IsOwned b.asize b.ptr
  pub bounded : b.asize ≤ max_asize

-- `b` holds the bytes `s`, and a terminator behind them.
pub record Holds (b : Strbuf) (s : Bytes) : Type 0 where
  pub junk : Bytes
  pub layout : Layout b s (0 ∷ junk)

pub empty-Holds : Holds empty []
empty-Holds = record {
  junk = [];
  layout = record {
    memory = refl;
    size_eq = refl;
    room = omega arith;
    owned = inr (refl, refl);
    bounded = omega arith;
  };
}

-- A run that returns a value with `P`, unless memory runs out, or the length `n` is past the limit
-- and the code aborts. It never faults.
pub data Ends {A : Type 0} (n : ℕ) (P : A → Type 0) : Run A → Type 0 where
  done : {a : A} → P a → Ends n P (ok a)
  no_memory : Ends n P (aborted out_of_memory)
  too_long : half_max < n → Ends n P (aborted too_large)

module _ {A : Type 0} {P : A → Type 0} {n : ℕ} where
  pub bind :
      {B : Type 0} {Q : B → Type 0} {r : Run A} {k : A → Run B} {m : ℕ}
      → Ends n P r
      → n ≤ m
      → ((a : A) → P a → Ends m Q (k a))
      → Ends m Q (r >>= k)
  bind (done p) le next = next _ p
  bind no_memory le next = no_memory
  bind (too_long h) le next = too_long (omega arith)

  pub mono :
      {Q : A → Type 0} {r : Run A} {m : ℕ} → Ends n P r → n ≤ m → ((a : A) → P a → Q a) → Ends m Q r
  mono (done p) le weaken = done (weaken _ p)
  mono no_memory le weaken = no_memory
  mono (too_long h) le weaken = too_long (omega arith)

  -- A part that always returns, in front of one that may end otherwise.
  pub bind_Returns :
      {B : Type 0} {Q : B → Type 0} {r : Run A} {k : A → Run B}
      → Returns P r
      → ((a : A) → P a → Ends n Q (k a))
      → Ends n Q (r >>= k)
  bind_Returns (returns p) next = next _ p
