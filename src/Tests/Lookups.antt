-- ===== src/Tests/Lookups.antt =====
-- houdini_html_u.c, the case folding of utf8.c and references.c on concrete tables and texts.
use mathlib.Core.Path.{subst}
use cmark.Prelude.{
  ℕ, zero, suc, ◌+◌, ◌<◌, ◌≡◌, refl, false, true, ◌&&◌, Option, List, [], ◌∷◌, ◌++◌, length,
  get_elem?, some, none, ok, Bytes, leb, if◌then◌else◌, Returns, Bool-cases, inl, inr, arith,
}
use cmark.Ctype.{is_space}
use cmark.Buffer.Layout.{Holds, Ends}
use cmark.Buffer.Cut.Trim.{trim_start, trim_end}
use cmark.Buffer.Rewrite.Whitespace.{collapse}
use cmark.Chunk.{Chunk, empty_chunk}
use cmark.Utf8.{iterate, iterate_at, decode, charlen, charlen_loop, class_of, utf8class, encode}
use cmark.Utf8.Valid.All.{AllBytes}
use cmark.Utf8.Fold.{FoldsInRange, case_fold, folded, folded_loop, encode_all, case_fold-folded}
use cmark.Houdini.{escape_code, html_escape_table, html_literal, html_escapes}
use cmark.Houdini.Loop.{escaped}
use cmark.Houdini.Html.{html_escaped, html_piece}
use cmark.Houdini.Unescape.{
  Entity, lookup_entity, lookup, strncmp, matches, not_positive, left_of, right_of, unescape_html_f,
}
use cmark.Houdini.Unescape.Lookup.{before, NoNul, IsSorted, Looked, lookup_entity-Looked}
use cmark.Houdini.Unescape.Read.{IsStandard}
use cmark.Houdini.Unescape.RoundTrip.{unescape_html_f-html_escaped}
use cmark.References.{
  Reference, map_new, normalize_reference, reference_lookup, refhash, same_string,
}
use cmark.References.Table.{add_all, first_with, found_in, found_in-add_all}
use cmark.References.Normal.{
  until_nul, normal_form, some_label, first_for, normalize_reference-normal_form,
  reference_lookup-first_for,
}
use cmark.Tests.{libc_example, codes, text_example, buffer_example, buffer_example-Holds}

abbrev name_of : Entity → Option Entity → Bytes
name_of d none = d.name
name_of d (some e) = e.name

abbrev entities_example : List Entity
entities_example =
    record { name = codes "amp"; bytes = codes "&" }
    ∷ record { name = codes "gt"; bytes = codes ">" }
    ∷ record { name = codes "lt"; bytes = codes "<" }
    ∷ record { name = codes "quot"; bytes = codes "\"" }
    ∷ []

-- The order of a table, entry by entry.
abbrev Ahead : Bytes → List Entity → Type 0
Ahead name [] = Unit {0}
Ahead name (e ∷ es) = (before name e.name ≡ true) × Ahead name es

abbrev Ascends : List Entity → Type 0
Ascends [] = Unit {0}
Ascends (e ∷ es) = NoNul e.name × Ahead e.name es × Ascends es

Ahead-get_elem? :
    (name : Bytes) (es : List Entity) (i : ℕ) (e : Entity)
    → Ahead name es
    → get_elem? es i ≡ some e
    → before name e.name ≡ true
Ahead-get_elem? name [] i e h at_i = cc at_i
Ahead-get_elem? name (d ∷ es) zero e h at_i = subst (λ t. before name (name_of d t) ≡ true) at_i h.0
Ahead-get_elem? name (d ∷ es) (suc i) e h at_i = Ahead-get_elem? name es i e h.1 at_i

Ascends-IsSorted : (es : List Entity) → Ascends es → IsSorted es
Ascends-IsSorted es h = record { ascending = ascending es h; clean = clean es h }
  where
    ascending :
        (es : List Entity)
        → Ascends es
        → (i j : ℕ) (d e : Entity) → i < j
        → get_elem? es i ≡ some d
        → get_elem? es j ≡ some e
        → before d.name e.name ≡ true
    ascending [] h i j d e lt at_i at_j = cc at_i
    ascending (x ∷ es) h i zero d e lt at_i at_j = absurd (omega arith)
    ascending (x ∷ es) h zero (suc j) d e lt at_i at_j =
        subst (λ t. before (name_of d t) e.name ≡ true) at_i
          (Ahead-get_elem? x.name es j e h.1 at_j)
    ascending (x ∷ es) h (suc i) (suc j) d e lt at_i at_j =
        ascending es h.2 i j d e (omega arith) at_i at_j

    clean :
        (es : List Entity)
        → Ascends es
        → (i : ℕ) (e : Entity) → get_elem? es i ≡ some e
        → NoNul e.name
    clean [] h i e at_i = cc at_i
    clean (x ∷ es) h zero e at_i = subst (λ t. NoNul (name_of e t)) at_i h.0
    clean (x ∷ es) h (suc i) e at_i = clean es h.2 i e at_i

entities_example-IsSorted : IsSorted entities_example
unfolding before
entities_example-IsSorted = Ascends-IsSorted entities_example (
    (
      ((λ e. cc e), ((λ e. cc e), ((λ e. cc e), tt))),
      (refl, (refl, (refl, tt))),
      (
        ((λ e. cc e), ((λ e. cc e), tt)),
        (refl, (refl, tt)),
        (
          ((λ e. cc e), ((λ e. cc e), tt)),
          (refl, tt),
          (((λ e. cc e), ((λ e. cc e), ((λ e. cc e), ((λ e. cc e), tt)))), tt, tt),
        ),
      ),
    ))

entities_example-IsStandard : IsStandard entities_example
entities_example-IsStandard = record {
  sorted = entities_example-IsSorted;
  quot = (3, refl);
  amp = (0, refl);
  lt = (2, refl);
  gt = (1, refl);
}

-- The name `lt`, and a name that the table does not have.
lookup_entity-Looked_example :
    Returns (Looked entities_example 0 3 (codes "lt")) (lookup_entity entities_example (codes "lt"))
lookup_entity-Looked_example =
    lookup_entity-Looked entities_example entities_example-IsSorted (codes "lt")
      ((λ e. cc e), ((λ e. cc e), tt)) (omega arith)

lookup_entity_absent : lookup_entity entities_example (codes "le") ≡ ok none
unfolding lookup_entity lookup strncmp matches not_positive left_of right_of
lookup_entity_absent = refl

markup-AllBytes : AllBytes (codes "<a'>")
markup-AllBytes = (omega arith, (omega arith, (omega arith, (omega arith, tt))))

markup_escaped : html_escaped true (codes "<a'>") ≡ codes "&lt;a&#39;&gt;"
unfolding escaped escape_code html_escape_table html_piece html_literal html_escapes
markup_escaped = refl

unescape_html_f-html_escaped_example :
    Ends
      (7 + length (html_escaped true (codes "<a'>")))
      (λ b. Holds b (text_example ++ codes "<a'>"))
      (unescape_html_f entities_example buffer_example (html_escaped true (codes "<a'>")))
unescape_html_f-html_escaped_example =
    unescape_html_f-html_escaped entities_example entities_example-IsStandard true buffer_example
      text_example (codes "<a'>") buffer_example-Holds markup-AllBytes
      (rw markup_escaped (omega arith))

-- Case folding for ASCII.
abbrev fold_example : ℕ → List ℕ
fold_example uc = if leb 65 uc && leb uc 90 then (uc + 32) ∷ [] else (uc ∷ [])

fold_example-FoldsInRange : FoldsInRange fold_example
fold_example-FoldsInRange uc h = elim (Bool-cases (leb 65 uc && leb uc 90)) [
  | inl upper ↦ rw upper (ground arith, tt)
  | inr other ↦ rw other (h, tt)
]

abbrev label_text : Bytes
label_text = codes " Foo\nBar "

label_text-AllBytes : AllBytes label_text
label_text-AllBytes = (
  omega arith,
  (
    omega arith,
    (
      omega arith,
      (omega arith, (omega arith, (omega arith, (omega arith, (omega arith, (omega arith, tt)))))),
    ),
  ),
)

label_folded : folded fold_example label_text ≡ codes " foo\nbar "
unfolding folded folded_loop encode_all encode iterate iterate_at decode charlen charlen_loop
    class_of utf8class
label_folded = refl

case_fold-folded_example :
    Ends
      (7 + length (folded fold_example label_text))
      (λ b. Holds b (text_example ++ folded fold_example label_text))
      (case_fold fold_example buffer_example label_text)
case_fold-folded_example =
    case_fold-folded fold_example fold_example-FoldsInRange buffer_example text_example label_text
      label_text-AllBytes buffer_example-Holds (rw label_folded (omega arith))

abbrev label_chunk : Chunk
label_chunk = record { bytes = some label_text; len = 9; alloc = false }

normalize_reference-normal_form_example :
    Ends
      (length (folded fold_example label_text))
      (λ r. r ≡ some_label (normal_form fold_example label_text))
      (normalize_reference fold_example (some label_chunk))
normalize_reference-normal_form_example =
    normalize_reference-normal_form fold_example label_chunk label_text label_text
      fold_example-FoldsInRange refl refl (omega arith) label_text-AllBytes
      (rw label_folded (omega arith))

label_normal : normal_form fold_example label_text ≡ codes "foo bar"
unfolding until_nul collapse trim_end trim_start is_space
label_normal = rw label_folded refl

-- Two references with one label, and one with another.
abbrev reference_with : Bytes → Bytes → Reference
reference_with label url = record {
  label = label;
  url = record { bytes = some url; len = 1; alloc = false };
  title = empty_chunk;
  hash = refhash label;
}

abbrev references_example : List Reference
references_example =
    reference_with (codes "b") (codes "1")
    ∷ reference_with (codes "foo bar") (codes "2")
    ∷ reference_with (codes "foo bar") (codes "3")
    ∷ []

found_in-add_all_example :
    found_in (add_all map_new references_example) (codes "foo bar")
    ≡ first_with (codes "foo bar") references_example
found_in-add_all_example =
    found_in-add_all references_example (codes "foo bar") (refl, (refl, (refl, tt)))

reference_lookup-first_for_example :
    Ends
      (length (folded fold_example label_text))
      (λ r. r ≡ first_for (some_label (normal_form fold_example label_text)) references_example)
      (reference_lookup fold_example (some (add_all map_new references_example)) label_chunk)
reference_lookup-first_for_example =
    reference_lookup-first_for fold_example references_example label_chunk label_text label_text
      (refl, (refl, (refl, tt))) fold_example-FoldsInRange refl refl (omega arith) (omega arith)
      label_text-AllBytes (rw label_folded (omega arith))

-- The first of the two is the one that is found.
label_found :
    first_for (some_label (normal_form fold_example label_text)) references_example
    ≡ some (reference_with (codes "foo bar") (codes "2"))
unfolding first_for first_with same_string
label_found = rw label_normal refl
