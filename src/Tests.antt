-- ===== src/Tests.antt =====
-- Data to try the model on: a C library, texts, a buffer and a small tree.
use cmark.Prelude.{
  ℕ, ◌≡◌, ◌≤◌, ◌++◌, ◌-◌, [], ◌∷◌, Option, some, Bytes, length, take, replicate, refl, ap, sym, ◌∙◌,
  inl, ◌==◌, ◌||◌, if◌then◌else◌, length-append, length-replicate, arith,
}
use cmark.Alloc.{Libc}
use cmark.Buffer.{Strbuf}
use cmark.Buffer.Layout.{Holds}
use cmark.Buffer.Cut.Laws.{take-all}
use cmark.Node.{Ptr, null, Links, NodeType, document, paragraph}
use cmark.Node.Unlink.{IsLinked}
use cmark.Node.Ancestors.{HasHeight}
pub use cmark.Prelude.{codes}
mod Buffers
mod Feeds
mod Lookups
mod Markers
mod Renders
mod Scans
mod Texts
mod Trees
mod Walks

pub some_eq : {p q : Bytes} → some p ≡ some q → p ≡ q
some_eq e = cc e

-- An allocator that never fails, and clears what it adds.
abbrev pub resized : Bytes → ℕ → Bytes
resized p n = take n p ++ replicate (n - length p) 0

pub resized-grows :
    (p : Bytes) (n : ℕ) (q : Bytes)
    → length p ≤ n
    → some (resized p n) ≡ some q
    → (added : Bytes) × (q ≡ p ++ added) × (length q ≡ n)
resized-grows p n q h e =
    let added = replicate (n - length p) 0 in
    let same : q ≡ p ++ added = sym (some_eq e) ∙ ap (λ t. t ++ added) (take-all n p h) in
    (
      added,
      same,
      omega
          (arith, ap length same, length-append p added, length-replicate {A = ℕ} (n - length p) 0),
    )

instance abbrev pub libc_example : Libc
libc_example = record {
  calloc = λ n. some (replicate n 0);
  realloc = λ p n. some (resized p n);
  calloc_clears = λ n q e. sym (some_eq e);
  realloc_grows = resized-grows;
}

-- A buffer of sixteen bytes that holds ` a  b\` and a blank.
abbrev pub text_example : Bytes
text_example = codes " a  \\* "

abbrev pub junk_example : Bytes
junk_example = codes "leftover"

abbrev pub buffer_example : Strbuf
buffer_example = record { ptr = text_example ++ 0 ∷ junk_example; asize = 16; size = 7 }

pub buffer_example-Holds : Holds buffer_example text_example
buffer_example-Holds = record {
  junk = junk_example;
  layout = record {
    memory = refl;
    size_eq = refl;
    room = omega arith;
    owned = inl refl;
    bounded = omega arith;
  };
}

-- The document 1 has the children 2 and 3; the paragraph 4 stands alone.
abbrev pub type_example : Ptr → NodeType
type_example p = if p == 1 then document else paragraph

abbrev pub tree_example : Links
tree_example = record {
  next = λ p. if p == 2 then 3 else null;
  prev = λ p. if p == 3 then 2 else null;
  parent = λ p. if p == 2 || p == 3 then 1 else null;
  first_child = λ p. if p == 1 then 2 else null;
  last_child = λ p. if p == 1 then 3 else null;
  type = type_example;
}

pub tree_example-IsLinked : IsLinked tree_example
tree_example-IsLinked = record {
  next_back = λ p a b. ground arith;
  next_parent = λ p a b. ground arith;
  prev_back = λ p a b. ground arith;
  first_prev = λ p a b. ground arith;
  first_parent = λ p a b. ground arith;
  last_next = λ p a b. ground arith;
  last_parent = λ p a b. ground arith;
  is_first = λ p a b c. ground arith;
  is_last = λ p a b c. ground arith;
  none_first = λ p a b. ground arith;
  none_last = λ p a b. ground arith;
  root_next = λ p a b. ground arith;
  root_prev = λ p a b. ground arith;
}

pub tree_example-HasHeight : HasHeight tree_example 2
tree_example-HasHeight = record {
  depth = λ p. if p == 2 || p == 3 then 1 else 0;
  climbs = λ p a b. ground arith;
  bounded = λ p. ground arith;
}
