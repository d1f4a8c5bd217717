-- ===== src/Alloc.antt =====
-- The allocator behind `cmark_mem`. `calloc` and `realloc` are those of the C library, which is a
-- parameter; cmark.c wraps them, and its wrappers are the default allocator.
use cmark.Prelude.{
  ℕ, ◌≤◌, ◌≡◌, Option, none, some, ◌++◌, length, replicate, Bytes, Run, ok, aborted, out_of_memory,
}

-- `none` is the null pointer. The laws are those of the C standard: `calloc` clears the memory, and
-- a larger block starts with the old one's bytes, followed by bytes that are not specified.
pub record Libc : Type 0 where
  pub calloc : ℕ → Option Bytes
  pub realloc : Bytes → ℕ → Option Bytes
  pub calloc_clears : (n : ℕ) (q : Bytes) → calloc n ≡ some q → q ≡ replicate n 0
  pub realloc_grows :
      (p : Bytes) (n : ℕ) (q : Bytes)
      → length p ≤ n
      → realloc p n ≡ some q
      → (added : Bytes) × (q ≡ p ++ added) × (length q ≡ n)

module _ ⦃libc : Libc⦄ where
  unfoldable pub xcalloc : ℕ → Run Bytes
  xcalloc n = elim (libc.calloc n) [ none ↦ aborted out_of_memory | some q ↦ ok q ]

  unfoldable pub xrealloc : Bytes → ℕ → Run Bytes
  xrealloc p n = elim (libc.realloc p n) [ none ↦ aborted out_of_memory | some q ↦ ok q ]
