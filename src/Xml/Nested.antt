-- ===== src/Xml/Nested.antt =====
-- The XML of a tree by recursion, and that the renderer makes these calls: each node's start tag, its
-- children indented by two more, and its end tag.
use cmark.Prelude.{
  ℕ, ◌+◌, ◌-◌, ◌≡◌, ◌≢◌, refl, sym, ap, ◌∙◌, true, false, not, ◌==◌, leb, List, [], ◌∷◌, ◌++◌,
  append-nil, Run, ok, ◌>>=◌, bind_eq_ok, ok_eq, arith,
}
use mathlib.Core.Path.{subst}
use cmark.Node.{Ptr, null}
use cmark.Iterator.{enter, exit, State, at, is_leaf}
use cmark.Iterator.Walk.{Subtree, leaf, bare, inner, Siblings, final, more}
use cmark.Render.{Document, tree_of, Call, is_enter}
use cmark.Render.Events.{Renders, nothing, event, Renders-append}
use cmark.Render.Trees.{Tree, node, Trees, none, also, shape, shapes}
use cmark.Xml.{xml_node, xml_event, xml_start, xml_end}

unfoldable mutual
  pub xml_tree : Document → ℕ → ℕ → Tree → Run (List Call)
  xml_tree doc options indent (node p none) = xml_start false (doc.nodes p) options indent
  xml_tree doc options indent (node p (also t ts)) = do
    start ← xml_start true (doc.nodes p) options indent
    first ← xml_tree doc options (indent + 2) t
    rest ← xml_trees doc options (indent + 2) ts
    ok (start ++ ((first ++ rest) ++ xml_end (doc.nodes p) indent))

  pub xml_trees : Document → ℕ → ℕ → Trees → Run (List Call)
  xml_trees doc options indent none = ok []
  xml_trees doc options indent (also t ts) = do
    first ← xml_tree doc options indent t
    rest ← xml_trees doc options indent ts
    ok (first ++ rest)

module _ (doc : Document) (options : ℕ) where
  abbrev Makes : ℕ → List State → List Call → Type 0
  Makes n es cs = Renders (xml_node doc options) n es cs n

  with_child :
      (p : Ptr) → doc.links.first_child p ≢ null → not (doc.links.first_child p == null) ≡ true
  with_child p h = ground arith

  start-only :
      (p : Ptr) (indent : ℕ) (cs : List Call)
      → doc.links.first_child p ≡ null
      → xml_start false (doc.nodes p) options indent ≡ ok cs
      → xml_node doc options enter p indent ≡ ok (cs, indent)
  unfolding xml_node is_enter xml_event
  start-only p indent cs h e = rw (h, e)

  start-above :
      (p : Ptr) (indent : ℕ) (cs : List Call)
      → doc.links.first_child p ≢ null
      → xml_start true (doc.nodes p) options indent ≡ ok cs
      → xml_node doc options enter p indent ≡ ok (cs, indent + 2)
  unfolding xml_node is_enter xml_event
  start-above p indent cs h e = rw (with_child p h, e)

  end-nothing :
      (p : Ptr) (indent : ℕ)
      → doc.links.first_child p ≡ null
      → xml_node doc options exit p indent ≡ ok ([], indent)
  unfolding xml_node is_enter xml_event
  end-nothing p indent h = rw h

  end-below :
      (p : Ptr) (indent : ℕ)
      → doc.links.first_child p ≢ null
      → xml_node doc options exit p (indent + 2) ≡ ok (xml_end (doc.nodes p) indent, indent)
  unfolding xml_node is_enter xml_event
  end-below p indent h =
      let fits : leb 2 (indent + 2) ≡ true = ground arith in
      let back : indent + 2 - 2 ≡ indent = omega arith in rw (with_child p h, fits, back)

  both :
      (indent : ℕ) (t : Tree) (ts : Trees) (cs : List Call)
      → xml_trees doc options indent (also t ts) ≡ ok cs
      → (first : List Call) × (rest : List Call) × (xml_tree doc options indent t ≡ ok first)
        × (xml_trees doc options indent ts ≡ ok rest)
        × (first ++ rest ≡ cs)
  unfolding xml_trees
  both indent t ts cs e =
      let (first, e₁, f₁) =
        bind_eq_ok (xml_tree doc options indent t)
          (λ first. xml_trees doc options indent ts >>= λ rest. ok (first ++ rest)) e in
      let (rest, e₂, f₂) =
        bind_eq_ok (xml_trees doc options indent ts) (λ rest. ok (first ++ rest)) f₁ in
      (first, rest, e₁, e₂, ok_eq f₂)

  parts :
      (indent : ℕ) (p : Ptr) (t : Tree) (ts : Trees) (cs : List Call)
      → xml_tree doc options indent (node p (also t ts)) ≡ ok cs
      → (start : List Call) × (below : List Call) × (xml_start true (doc.nodes p) options indent
          ≡ ok start)
        × (xml_trees doc options (indent + 2) (also t ts) ≡ ok below)
        × (start ++ (below ++ xml_end (doc.nodes p) indent) ≡ cs)
  unfolding xml_tree
  parts indent p t ts cs e =
      let (start, e₁, f₁) =
        bind_eq_ok (xml_start true (doc.nodes p) options indent)
          (λ start. xml_tree doc options (indent + 2) t >>= λ first.
            xml_trees doc options (indent + 2) ts >>= λ rest.
            ok (start ++ ((first ++ rest) ++ xml_end (doc.nodes p) indent)))
          e in
      let (first, e₂, f₂) =
        bind_eq_ok (xml_tree doc options (indent + 2) t)
          (λ first. xml_trees doc options (indent + 2) ts >>= λ rest.
            ok (start ++ ((first ++ rest) ++ xml_end (doc.nodes p) indent)))
          f₁ in
      let (rest, e₃, f₃) =
        bind_eq_ok (xml_trees doc options (indent + 2) ts)
          (λ rest. ok (start ++ ((first ++ rest) ++ xml_end (doc.nodes p) indent))) f₂ in
      let below : xml_trees doc options (indent + 2) (also t ts) ≡ ok (first ++ rest) =
        ap (λ r. r >>= λ a. xml_trees doc options (indent + 2) ts >>= λ b. ok (a ++ b)) e₂
        ∙ ap (λ r. r >>= λ b. ok (first ++ b)) e₃ in
      (start, first ++ rest, e₁, below, ok_eq f₃)

  inner-Makes :
      (p : Ptr) (indent : ℕ) (es : List State) (t : Tree) (ts : Trees) (cs : List Call)
      → doc.links.first_child p ≢ null
      → ((below : List Call)
          → xml_trees doc options (indent + 2) (also t ts) ≡ ok below
          → Makes (indent + 2) es below)
      → xml_tree doc options indent (node p (also t ts)) ≡ ok cs
      → Makes indent (at enter p ∷ (es ++ at exit p ∷ [])) cs
  inner-Makes p indent es t ts cs h middle e =
      let (start, below, e₁, e₂, same) = parts indent p t ts cs e in
      let end = xml_end (doc.nodes p) indent in
      let last : Renders (xml_node doc options) (indent + 2) (at exit p ∷ []) (end ++ []) indent =
        event (end-below p indent h) nothing in
      let whole : start ++ (below ++ (end ++ [])) ≡ cs = rw (append-nil end) same in
      subst (λ c. Makes indent (at enter p ∷ (es ++ at exit p ∷ [])) c) whole
        (event (start-above p indent start h e₁)
          (Renders-append (xml_node doc options) (middle below e₂) last))

  inner-Makes_trees :
      (p : Ptr) (indent : ℕ) (es : List State) (us : Trees) (cs : List Call)
      → (t : Tree) × (ts : Trees) × (us ≡ also t ts)
      → doc.links.first_child p ≢ null
      → ((below : List Call)
          → xml_trees doc options (indent + 2) us ≡ ok below
          → Makes (indent + 2) es below)
      → xml_tree doc options indent (node p us) ≡ ok cs
      → Makes indent (at enter p ∷ (es ++ at exit p ∷ [])) cs
  inner-Makes_trees p indent es us cs (t, ts, same) h middle e =
      inner-Makes p indent es t ts cs h
        (λ below k. middle below (ap (xml_trees doc options (indent + 2)) same ∙ k))
        (ap (λ u. xml_tree doc options indent (node p u)) (sym same) ∙ e)

  no_trees-Makes :
      (indent : ℕ) (rest : List Call)
      → xml_trees doc options indent none ≡ ok rest
      → Makes indent [] rest
  unfolding xml_trees
  no_trees-Makes indent rest e = subst (Makes indent []) (ok_eq e) nothing

  module _ {root : Ptr} where
    shapes-also :
        {m c : Ptr} {es : List State} (d : Siblings (tree_of doc) root m c es)
        → (t : Tree) × (ts : Trees) × (shapes d ≡ also t ts)
    unfolding shapes
    shapes-also (final a b d tree) = (shape tree, none, refl)
    shapes-also (more a b tree rest) = (shape tree, shapes rest, refl)

    module _
        (leaves : (p : Ptr)
          → is_leaf (doc.nodes p).type ≡ true
          → doc.links.first_child p ≡ null) where
      mutual
        unfolding shape xml_tree

        pub xml-Makes :
            {p : Ptr} {es : List State} (indent : ℕ) (cs : List Call)
            (tree : Subtree (tree_of doc) root p es)
            → xml_tree doc options indent (shape tree) ≡ ok cs
            → Makes indent es cs
        xml-Makes {p} indent cs (leaf some_p is) e =
            subst (Makes indent (at enter p ∷ [])) (append-nil cs)
              (event (start-only p indent cs (leaves p is) e) nothing)
        xml-Makes {p} indent cs (bare some_p not_leaf no_child) e =
            subst (Makes indent (at enter p ∷ at exit p ∷ [])) (append-nil cs) (
              event (start-only p indent cs no_child e)
                (event (end-nothing p indent no_child) nothing))
        xml-Makes {p} indent cs (inner {es = es} some_p not_leaf child children) e =
            inner-Makes_trees p indent es (shapes children) cs (shapes-also children) child
              (λ below k. xml-Makes_all (indent + 2) below children k) e

        xml-Makes_all :
            {m c : Ptr} {es : List State} (indent : ℕ) (cs : List Call)
            (trees : Siblings (tree_of doc) root m c es)
            → xml_trees doc options indent (shapes trees) ≡ ok cs
            → Makes indent es cs
        xml-Makes_all {es = es} indent cs (final a b d tree) e =
            let (first, rest, e₁, e₂, same) = both indent (shape tree) none cs e in
            subst (Makes indent es) same (
              subst (λ x. Makes indent x (first ++ rest)) (append-nil es)
                (Renders-append (xml_node doc options) (xml-Makes indent first tree e₁)
                  (no_trees-Makes indent rest e₂)))
        xml-Makes_all indent cs (more {es = es} {fs = fs} a b tree more_trees) e =
            let (first, rest, e₁, e₂, same) = both indent (shape tree) (shapes more_trees) cs e in
            subst (Makes indent (es ++ fs)) same (
              Renders-append (xml_node doc options) (xml-Makes indent first tree e₁)
                (xml-Makes_all indent rest more_trees e₂))
