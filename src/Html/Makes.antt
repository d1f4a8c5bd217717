-- ===== src/Html/Makes.antt =====
-- The calls that the renderer makes for the events of a tree are those of the recursion.
use cmark.Prelude.{
  ℕ, ◌≡◌, ◌≢◌, ap, ◌∙◌, inl, inr, Bool, true, false, ◌||◌, Bool-cases, List, [], ◌∷◌, ◌++◌,
  append-nil, ok, ◌>>=◌, bind_eq_ok, ok_eq,
}
use mathlib.Core.Path.{subst}
use cmark.Node.{Ptr, null}
use cmark.Iterator.{enter, exit, State, at, is_leaf}
use cmark.Iterator.Walk.{Subtree, leaf, bare, inner, Siblings, final, more}
use cmark.Render.{Document, tree_of, Call, is_enter}
use cmark.Render.Events.{Renders, nothing, event, Renders-append}
use cmark.Render.Trees.{
  Tree, node, Trees, none, also, shape, shapes, Apart, AllEvents-left, AllEvents-right,
  Siblings-Apart,
}
use cmark.Html.{html_node, is_image}
use cmark.Html.Nested.{
  html_one, html_end, html_tree, html_trees, outside_null, below_image, back, into_image,
  leaf-no_image,
}

module _ (doc : Document) (options : ℕ) where
  abbrev Makes : Ptr → List State → List Call → Ptr → Type 0
  Makes q es cs q' = Renders (html_node doc options) q es cs q'

  -- What the recursion has computed for a node.
  abbrev Parts : Bool → Ptr → Trees → List Call → Type 0
  Parts plain p ts cs =
      (start : List Call) × (below : List Call) × (end : List Call) × (html_one doc options plain
          true p
        ≡ ok start)
      × (html_trees doc options (plain || is_image (doc.nodes p).type) ts ≡ ok below)
      × (html_end doc options plain p ≡ ok end)
      × (start ++ (below ++ end) ≡ cs)

  parts :
      (plain : Bool) (p : Ptr) (ts : Trees) (cs : List Call)
      → html_tree doc options plain (node p ts) ≡ ok cs
      → Parts plain p ts cs
  unfolding html_tree
  parts plain p ts cs e =
      let (start, e₁, f₁) =
        bind_eq_ok (html_one doc options plain true p)
          (λ start. html_trees doc options (plain || is_image (doc.nodes p).type) ts >>= λ below.
            html_end doc options plain p >>= λ end. ok (start ++ (below ++ end)))
          e in
      let (below, e₂, f₂) =
        bind_eq_ok (html_trees doc options (plain || is_image (doc.nodes p).type) ts)
          (λ below. html_end doc options plain p >>= λ end. ok (start ++ (below ++ end))) f₁ in
      let (end, e₃, f₃) =
        bind_eq_ok (html_end doc options plain p) (λ end. ok (start ++ (below ++ end))) f₂ in
      (start, below, end, e₁, e₂, e₃, ok_eq f₃)

  both :
      (plain : Bool) (t : Tree) (ts : Trees) (cs : List Call)
      → html_trees doc options plain (also t ts) ≡ ok cs
      → (first : List Call) × (rest : List Call) × (html_tree doc options plain t ≡ ok first)
        × (html_trees doc options plain ts ≡ ok rest)
        × (first ++ rest ≡ cs)
  unfolding html_trees
  both plain t ts cs e =
      let (first, e₁, f₁) =
        bind_eq_ok (html_tree doc options plain t)
          (λ first. html_trees doc options plain ts >>= λ rest. ok (first ++ rest)) e in
      let (rest, e₂, f₂) =
        bind_eq_ok (html_trees doc options plain ts) (λ rest. ok (first ++ rest)) f₁ in
      (first, rest, e₁, e₂, ok_eq f₂)

  -- The calls of a leaf, of a node without children, and of one with children.
  leaf-Makes :
      (plain : Bool) (p q q₁ : Ptr) (cs : List Call)
      → is_leaf (doc.nodes p).type ≡ true
      → ((start : List Call)
          → html_one doc options plain true p ≡ ok start
          → html_node doc options enter p q ≡ ok (start, q₁))
      → html_tree doc options plain (node p none) ≡ ok cs
      → Makes q (at enter p ∷ []) cs q₁
  unfolding html_end html_trees
  leaf-Makes plain p q q₁ cs is entered e =
      let (start, below, end, e₁, e₂, e₃, same) = parts plain p none cs e in
      let no_end : [] ≡ end = ok_eq (rw is at e₃) in
      let whole : start ++ [] ≡ cs =
        ap (λ b. start ++ (b ++ [])) (ok_eq e₂) ∙ ap (λ d. start ++ (below ++ d)) no_end ∙ same in
      subst (λ c. Makes q (at enter p ∷ []) c q₁) whole (event (entered start e₁) nothing)

  inner-Makes :
      (plain : Bool) (p q q₁ q₂ : Ptr) (es : List State) (ts : Trees) (cs : List Call)
      → is_leaf (doc.nodes p).type ≡ false
      → ((start : List Call)
          → html_one doc options plain true p ≡ ok start
          → html_node doc options enter p q ≡ ok (start, q₁))
      → ((below : List Call)
          → html_trees doc options (plain || is_image (doc.nodes p).type) ts ≡ ok below
          → Makes q₁ es below q₁)
      → ((end : List Call)
          → html_one doc options plain false p ≡ ok end
          → html_node doc options exit p q₁ ≡ ok (end, q₂))
      → html_tree doc options plain (node p ts) ≡ ok cs
      → Makes q (at enter p ∷ (es ++ at exit p ∷ [])) cs q₂
  unfolding html_end
  inner-Makes plain p q q₁ q₂ es ts cs not_leaf entered middle left e =
      let (start, below, end, e₁, e₂, e₃, same) = parts plain p ts cs e in
      let last : Makes q₁ (at exit p ∷ []) (end ++ []) q₂ =
        event (left end (rw not_leaf at e₃)) nothing in
      let whole : start ++ (below ++ (end ++ [])) ≡ cs = rw (append-nil end) same in
      subst (λ c. Makes q (at enter p ∷ (es ++ at exit p ∷ [])) c q₂) whole
        (event (entered start e₁) (Renders-append (html_node doc options) (middle below e₂) last))

  no_trees-Makes :
      (plain : Bool) (q : Ptr) (below : List Call)
      → html_trees doc options plain none ≡ ok below
      → Makes q [] below q
  unfolding html_trees
  no_trees-Makes plain q below e = subst (λ c. Makes q [] c q) (ok_eq e) nothing

  -- A node with children, plain text if it is an image.
  html-Makes_inner :
      {p : Ptr} {es : List State} (ts : Trees) (cs : List Call)
      → is_leaf (doc.nodes p).type ≡ false
      → ((below : List Call)
          → p ≢ null
          → html_trees doc options true ts ≡ ok below
          → Makes p es below p)
      → ((below : List Call)
          → html_trees doc options false ts ≡ ok below
          → Makes null es below null)
      → p ≢ null
      → html_tree doc options false (node p ts) ≡ ok cs
      → Makes null (at enter p ∷ (es ++ at exit p ∷ [])) cs null
  unfolding is_enter
  html-Makes_inner {p} {es} ts cs not_leaf plainly freely some_p e =
      elim (Bool-cases (is_image (doc.nodes p).type)) [
        | inl is ↦
            inner-Makes false p null p null es ts cs not_leaf
              (λ start h. into_image doc options p start is h)
              (λ below h. plainly below some_p (rw is at h)) (λ end h. back doc options p end h) e
        | inr is ↦
            inner-Makes false p null null null es ts cs not_leaf
              (λ start h. outside_null doc options enter p start (rw is) h)
              (λ below h. freely below (rw is at h))
              (λ end h. outside_null doc options exit p end (rw is) h) e
      ]

  module _ {root : Ptr} where
    mutual
      unfolding shape is_enter

      -- Below an image the state stays as it is.
      plain-Makes :
          {p : Ptr} {es : List State} (q : Ptr) (cs : List Call)
          (tree : Subtree (tree_of doc) root p es)
          → q ≢ null
          → Apart q es
          → html_tree doc options true (shape tree) ≡ ok cs
          → Makes q es cs q
      plain-Makes {p} q cs (leaf some_p is) some_q apart e =
          leaf-Makes true p q q cs is
            (λ start h. below_image doc options enter p q start some_q apart.0 h) e
      plain-Makes {p} q cs (bare some_p not_leaf no_child) some_q apart e =
          inner-Makes true p q q q [] none cs not_leaf
            (λ start h. below_image doc options enter p q start some_q apart.0 h)
            (λ below h. no_trees-Makes true q below h)
            (λ end h. below_image doc options exit p q end some_q apart.0 h) e
      plain-Makes {p} q cs (inner {es = es} some_p not_leaf child children) some_q apart e =
          inner-Makes true p q q q es (shapes children) cs not_leaf
            (λ start h. below_image doc options enter p q start some_q apart.0 h)
            (λ below h.
              plain-Makes_all q below children some_q
                (AllEvents-left (λ e. e.node ≢ q) es (at exit p ∷ []) apart.1) h)
            (λ end h. below_image doc options exit p q end some_q apart.0 h) e

      plain-Makes_all :
          {m c : Ptr} {es : List State} (q : Ptr) (cs : List Call)
          (trees : Siblings (tree_of doc) root m c es)
          → q ≢ null
          → Apart q es
          → html_trees doc options true (shapes trees) ≡ ok cs
          → Makes q es cs q
      plain-Makes_all {es = es} q cs (final a b d tree) some_q apart e =
          let (first, rest, e₁, e₂, same) = both true (shape tree) none cs e in
          subst (λ c. Makes q es c q) same
            (subst (λ x. Makes q x (first ++ rest) q) (append-nil es)
              (Renders-append (html_node doc options) (plain-Makes q first tree some_q apart e₁)
                (no_trees-Makes true q rest e₂)))
      plain-Makes_all q cs (more {es = es} {fs = fs} a b tree more_trees) some_q apart e =
          let (first, rest, e₁, e₂, same) = both true (shape tree) (shapes more_trees) cs e in
          subst (λ c. Makes q (es ++ fs) c q) same
            (Renders-append (html_node doc options)
              (plain-Makes q first tree some_q (AllEvents-left (λ e. e.node ≢ q) es fs apart) e₁)
              (plain-Makes_all q rest more_trees some_q
                (AllEvents-right (λ e. e.node ≢ q) es fs apart) e₂))

    mutual
      unfolding shape is_enter

      pub html-Makes :
          {p : Ptr} {es : List State} (cs : List Call) (tree : Subtree (tree_of doc) root p es)
          → html_tree doc options false (shape tree) ≡ ok cs
          → Makes null es cs null
      html-Makes {p} cs (leaf some_p is) e =
          leaf-Makes false p null null cs is
            (λ start h.
              outside_null doc options enter p start
                (rw (leaf-no_image doc options (doc.nodes p).type is)) h)
            e
      html-Makes {p} cs (bare some_p not_leaf no_child) e =
          html-Makes_inner none cs not_leaf (λ below some h. no_trees-Makes true p below h)
            (λ below h. no_trees-Makes false null below h) some_p e
      html-Makes {p} cs (inner {es = es} some_p not_leaf child children) e =
          html-Makes_inner (shapes children) cs not_leaf
            (λ below some h.
              plain-Makes_all p below children some (Siblings-Apart some_p not_leaf child children)
                h)
            (λ below h. html-Makes_all below children h) some_p e

      html-Makes_all :
          {m c : Ptr} {es : List State} (cs : List Call)
          (trees : Siblings (tree_of doc) root m c es)
          → html_trees doc options false (shapes trees) ≡ ok cs
          → Makes null es cs null
      html-Makes_all {es = es} cs (final a b d tree) e =
          let (first, rest, e₁, e₂, same) = both false (shape tree) none cs e in
          subst (λ c. Makes null es c null) same
            (subst (λ x. Makes null x (first ++ rest) null) (append-nil es)
              (Renders-append (html_node doc options) (html-Makes first tree e₁)
                (no_trees-Makes false null rest e₂)))
      html-Makes_all cs (more {es = es} {fs = fs} a b tree more_trees) e =
          let (first, rest, e₁, e₂, same) = both false (shape tree) (shapes more_trees) cs e in
          subst (λ c. Makes null (es ++ fs) c null) same
            (Renders-append (html_node doc options) (html-Makes first tree e₁)
              (html-Makes_all rest more_trees e₂))
