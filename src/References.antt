-- ===== src/References.antt =====
-- references.c: the map of link references. A label is kept as the C string that it is, the bytes in
-- front of the terminator; the map has a chain for each of its sixteen buckets. The parameters are
-- the tables of case folding and of named entities. The allocation of the structures succeeds.
use cmark.Prelude.{
  ℕ, zero, suc, ◌+◌, ◌-◌, ◌*◌, ◌%◌, ◌^◌, Bool, true, false, ◌&&◌, ◌||◌, Option, none, some, List,
  [], ◌∷◌, ◌==◌, ltb, if◌then◌else◌, Bytes, slice, Run, ok, fault, ◌>>=◌,
}
use cmark.Alloc.{Libc}
use cmark.Buffer.{Strbuf, empty, detach}
use cmark.Buffer.Cut.{trim}
use cmark.Buffer.Rewrite.{normalize_whitespace}
use cmark.Chunk.{Chunk, memory_of}
use cmark.Utf8.Fold.{case_fold}
use cmark.Houdini.Unescape.{Entity}
use cmark.Inlines.Clean.{clean_url, clean_title}
pub mod Table
pub mod Normal

abbrev pub word : ℕ
word = 2 ^ 32

-- `MAX_LINK_LABEL_LENGTH` and `REFMAP_SIZE`
abbrev pub max_label : ℕ
max_label = 1000

abbrev pub refmap_size : ℕ
refmap_size = 16

-- The loop of `refhash`, in unsigned arithmetic.
unfoldable pub refhash_loop : ℕ → Bytes → ℕ
refhash_loop hash [] = hash
refhash_loop hash (c ∷ cs) = refhash_loop ((c + hash * 2 ^ 6 + hash * 2 ^ 16 - hash) % word) cs

unfoldable pub refhash : Bytes → ℕ
refhash link_ref = refhash_loop 0 link_ref

pub record Reference : Type 0 where
  pub label : Bytes
  pub url : Chunk
  pub title : Chunk
  pub hash : ℕ

-- The chains, the first entry first, by the number of the bucket.
abbrev pub RefMap : Type 0
RefMap = ℕ → List Reference

unfoldable pub map_new : RefMap
map_new bucket = []

-- The bytes in front of the terminator.
unfoldable pub c_string : Bytes → Run Bytes
c_string [] = fault
c_string (c ∷ m) = let rest = c_string m in if c == 0 then ok [] else rest >>= λ s. ok (c ∷ s)

-- `!strcmp(a, b)`
unfoldable pub same_string : Bytes → Bytes → Bool
same_string [] [] = true
same_string [] (d ∷ t) = false
same_string (c ∷ s) [] = false
same_string (c ∷ s) (d ∷ t) = c == d && same_string s t

module _ ⦃libc : Libc⦄ (fold : ℕ → List ℕ) where
  -- `normalize_reference`; `none` is the null pointer
  unfoldable pub normalize_reference : Option Chunk → Run (Option Bytes)
  normalize_reference none = ok none
  normalize_reference (some ref) = if ref.len == 0 then ok none else do
    m ← memory_of ref.bytes
    d ← slice m 0 ref.len
    folded ← case_fold fold empty d
    trimmed ← trim folded
    normalized ← normalize_whitespace trimmed
    result ← detach normalized
    label ← c_string result.0
    elim label [ [] ↦ ok none | c ∷ s ↦ ok (some (c ∷ s)) ]

-- `t->hash == ref->hash && !strcmp(t->label, ref->label)`
unfoldable pub is_same : ℕ → Bytes → Reference → Bool
is_same hash label t = t.hash == hash && same_string t.label label

-- The walks over a chain.
unfoldable pub find : ℕ → Bytes → List Reference → Option Reference
find hash label [] = none
find hash label (t ∷ chain) =
    let rest = find hash label chain in if is_same hash label t then some t else rest

unfoldable pub add_reference : RefMap → Reference → RefMap
add_reference map ref = elim (find ref.hash ref.label (map (ref.hash % refmap_size))) [
  | some t ↦ map
  | none ↦ λ bucket. if bucket == ref.hash % refmap_size then ref ∷ map bucket else map bucket
]

module _ ⦃libc : Libc⦄ (fold : ℕ → List ℕ) (entities : List Entity) where
  -- `cmark_reference_create`
  unfoldable pub reference_create : RefMap → Chunk → Chunk → Chunk → Run RefMap
  reference_create map label url title = normalize_reference fold (some label) >>= λ reflabel.
      elim reflabel [
        | none ↦ ok map
        | some l ↦ do
          u ← clean_url entities url
          t ← clean_title entities title
          ok (add_reference map (record { label = l; url = u.0; title = t; hash = refhash l }))
      ]

module _ ⦃libc : Libc⦄ (fold : ℕ → List ℕ) where
  -- `cmark_reference_lookup`
  unfoldable pub reference_lookup : Option RefMap → Chunk → Run (Option Reference)
  reference_lookup map label =
      if ltb label.len 1 || ltb max_label label.len then ok none else elim map [
        | none ↦ ok none
        | some m ↦ normalize_reference fold (some label) >>= λ norm. elim norm [
          | none ↦ ok none
          | some l ↦ ok (find (refhash l) l (m (refhash l % refmap_size)))
        ]
      ]
