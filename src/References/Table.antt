-- ===== src/References/Table.antt =====
-- The map against a list of references: the first reference with a label is the one that is found.
use cmark.Prelude.{
  ◌%◌, ◌≡◌, refl, sym, ap, ◌∙◌, inl, inr, Bool, true, false, Option, none, some, List, [], ◌∷◌,
  ◌==◌, if◌then◌else◌, Bytes, Bool-cases, Option-cases, arith,
}
use cmark.References.{
  Reference, RefMap, map_new, refhash, refmap_size, same_string, is_same, find, add_reference,
}

pub same_string-eq : (s t : Bytes) → same_string s t ≡ true → s ≡ t
unfolding same_string
same_string-eq [] [] h = refl
same_string-eq [] (d ∷ t) h = cc h
same_string-eq (c ∷ s) [] h = cc h
same_string-eq (c ∷ s) (d ∷ t) h =
    let tails : s ≡ t = same_string-eq s t (ground arith) in let heads : c ≡ d = ground arith in cc

pub same_string_refl : (s : Bytes) → same_string s s ≡ true
unfolding same_string
same_string_refl [] = refl
same_string_refl (c ∷ s) = ground (arith, same_string_refl s)

-- The abstract view: the references in the order in which they were added.
unfoldable pub first_with : Bytes → List Reference → Option Reference
first_with label [] = none
first_with label (r ∷ refs) =
    let rest = first_with label refs in if same_string r.label label then some r else rest

unfoldable pub add_all : RefMap → List Reference → RefMap
add_all map [] = map
add_all map (r ∷ refs) = add_all (add_reference map r) refs

-- References as `cmark_reference_create` makes them.
abbrev pub Hashed : List Reference → Type 0
Hashed [] = Unit {0}
Hashed (r ∷ refs) = (r.hash ≡ refhash r.label) × Hashed refs

-- What `cmark_reference_lookup` finds for a normalised label.
abbrev pub found_in : RefMap → Bytes → Option Reference
found_in map label = find (refhash label) label (map (refhash label % refmap_size))

abbrev or_first : Option Reference → Option Reference → Option Reference
or_first (some r) o = some r
or_first none o = o

or_first-none : (o : Option Reference) → or_first o none ≡ o
or_first-none (some r) = refl
or_first-none none = refl

-- A new entry in front of a chain.
find-cons :
    (r : Reference) (label : Bytes) (chain : List Reference)
    → r.hash ≡ refhash r.label
    → find (refhash label) label (r ∷ chain)
      ≡ (if same_string r.label label then some r else find (refhash label) label chain)
unfolding find is_same
find-cons r label chain h = elim (Bool-cases (same_string r.label label)) [
  | inl alike ↦
      let e : r.label ≡ label = same_string-eq r.label label alike in
      let hashed : (r.hash == refhash label) ≡ true = ground (arith, h ∙ ap refhash e) in
      rw (alike, hashed) refl
  | inr differs ↦ rw differs (ground arith)
]

-- The map with `r` put in front of its chain.
abbrev grown : RefMap → Reference → RefMap
grown map r bucket = if bucket == r.hash % refmap_size then r ∷ map bucket else map bucket

add_reference-absent :
    (map : RefMap) (r : Reference)
    → find r.hash r.label (map (r.hash % refmap_size)) ≡ none
    → add_reference map r ≡ grown map r
unfolding add_reference
add_reference-absent map r e = rw (e, add_reference) refl

add_reference-present :
    (map : RefMap) (r t : Reference)
    → find r.hash r.label (map (r.hash % refmap_size)) ≡ some t
    → add_reference map r ≡ map
unfolding add_reference
add_reference-present map r t e = rw (e, add_reference) refl

found_in-grown :
    (map : RefMap) (r : Reference) (label : Bytes)
    → r.hash ≡ refhash r.label
    → found_in map r.label ≡ none
    → found_in (grown map r) label
      ≡ or_first (found_in map label) (if same_string r.label label then some r else none)
found_in-grown map r label h absent = elim (Bool-cases (same_string r.label label)) [
  | inl alike ↦
      let e : r.label ≡ label = same_string-eq r.label label alike in
      let here : (refhash label % refmap_size == r.hash % refmap_size) ≡ true =
        ground (arith, h ∙ ap refhash e) in
      let none_yet : found_in map label ≡ none = ap (found_in map) (sym e) ∙ absent in
      rw (here, find-cons r label (map (refhash label % refmap_size)) h, alike, none_yet) refl
  | inr differs ↦
      rw (differs, or_first-none (found_in map label))
        (elim (Bool-cases (refhash label % refmap_size == r.hash % refmap_size)) [
          | inl here ↦
              rw (here, find-cons r label (map (refhash label % refmap_size)) h, differs) refl
          | inr elsewhere ↦ rw elsewhere refl
        ])
]

found_in-same :
    (map : RefMap) (r t : Reference) (label : Bytes)
    → found_in map r.label ≡ some t
    → found_in map label
      ≡ or_first (found_in map label) (if same_string r.label label then some r else none)
found_in-same map r t label present = elim (Bool-cases (same_string r.label label)) [
  | inl alike ↦
      let found : found_in map label ≡ some t =
        ap (found_in map) (sym (same_string-eq r.label label alike)) ∙ present in
      rw found refl
  | inr differs ↦ rw differs (sym (or_first-none (found_in map label)))
]

-- Adding a reference changes the answer for its own label only, and only where there was none.
found_in-add :
    (map : RefMap) (r : Reference) (label : Bytes)
    → r.hash ≡ refhash r.label
    → found_in (add_reference map r) label
      ≡ or_first (found_in map label) (if same_string r.label label then some r else none)
found_in-add map r label h =
    let own : find r.hash r.label (map (r.hash % refmap_size)) ≡ found_in map r.label =
      ap (λ n. find n r.label (map (n % refmap_size))) h in
    elim (Option-cases (found_in map r.label)) [
      | inl absent ↦
          ap (λ m. found_in m label) (add_reference-absent map r (own ∙ absent))
          ∙ found_in-grown map r label h absent
      | inr (t, present) ↦
          ap (λ m. found_in m label) (add_reference-present map r t (own ∙ present))
          ∙ found_in-same map r t label present
    ]

or_first_assoc :
    (o : Option Reference) (r : Reference) (b : Bool) (rest : Option Reference)
    → or_first (or_first o (if b then some r else none)) rest
      ≡ or_first o (if b then some r else rest)
or_first_assoc (some x) r b rest = refl
or_first_assoc none r true rest = refl
or_first_assoc none r false rest = refl

found_in-add_all_from :
    (map : RefMap) (refs : List Reference) (label : Bytes)
    → Hashed refs
    → found_in (add_all map refs) label ≡ or_first (found_in map label) (first_with label refs)
unfolding add_all first_with
found_in-add_all_from map [] label h = sym (or_first-none (found_in map label))
found_in-add_all_from map (r ∷ refs) label h =
    found_in-add_all_from (add_reference map r) refs label h.1
    ∙ ap (λ o. or_first o (first_with label refs)) (found_in-add map r label h.0)
    ∙ or_first_assoc (found_in map label) r (same_string r.label label) (first_with label refs)

-- The hash table refines a list of definitions: after references, whose hashes are those of their
-- labels, are added to the empty map, a label is found in its bucket exactly if one of them has it,
-- and what is found is the first that was added.
pub found_in-add_all :
    (refs : List Reference) (label : Bytes)
    → Hashed refs
    → found_in (add_all map_new refs) label ≡ first_with label refs
found_in-add_all refs label h =
    let nothing : found_in map_new label ≡ none = unfold map_new find in refl in
    found_in-add_all_from map_new refs label h
    ∙ ap (λ o. or_first o (first_with label refs)) nothing
