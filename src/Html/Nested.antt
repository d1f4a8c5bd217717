-- ===== src/Html/Nested.antt =====
-- The HTML of a tree by recursion: the calls for its root, its children, and its end, and the plain
-- text of what stands below an image. With them, what the
-- renderer makes of a single event in each state.
use cmark.Prelude.{
  ℕ, ◌≡◌, ◌≢◌, refl, ◌∙◌, inl, inr, Bool, true, false, ◌&&◌, ◌||◌, ◌==◌, if◌then◌else◌, Bool-cases,
  List, [], ◌++◌, Run, ok, ◌>>=◌, arith,
}
use cmark.Node.{Ptr, null, NodeType, image}
use cmark.Iterator.{EventType, enter, exit, is_leaf}
use cmark.Render.{Document, Call, is_enter}
use cmark.Render.Trees.{Tree, node, Trees, none, also}
use cmark.Html.{html_calls, html_plain, html_node, is_image, plain_after}

-- The calls for a node at its start or its end.
unfoldable pub html_one : Document → ℕ → Bool → Bool → Ptr → Run (List Call)
html_one doc options true entering p = html_plain (doc.nodes p).type (doc.nodes p)
html_one doc options false entering p = html_calls (doc.nodes p).type entering doc p options

unfoldable pub html_end : Document → ℕ → Bool → Ptr → Run (List Call)
unfolding html_one
html_end doc options plain p =
    if is_leaf (doc.nodes p).type then ok [] else html_one doc options plain false p

unfoldable mutual
  unfolding html_one html_end is_image

  pub html_tree : Document → ℕ → Bool → Tree → Run (List Call)
  html_tree doc options plain (node p ts) = do
    start ← html_one doc options plain true p
    below ← html_trees doc options (plain || is_image (doc.nodes p).type) ts
    end ← html_end doc options plain p
    ok (start ++ (below ++ end))

  pub html_trees : Document → ℕ → Bool → Trees → Run (List Call)
  html_trees doc options plain none = ok []
  html_trees doc options plain (also t ts) = do
    first ← html_tree doc options plain t
    rest ← html_trees doc options plain ts
    ok (first ++ rest)

module _ (doc : Document) (options : ℕ) where
  -- An event outside and below an image.
  outside :
      (e : EventType) (p : Ptr) (cs : List Call)
      → html_one doc options false (is_enter e) p ≡ ok cs
      → html_node doc options e p null ≡ ok (cs, plain_after (doc.nodes p).type (is_enter e) p)
  unfolding html_node html_one
  outside e p cs h = elim (Bool-cases (null == p)) [
    | inl same ↦ rw (same, h)
    | inr other ↦ rw (other, h)
  ]

  pub below_image :
      (e : EventType) (p q : Ptr) (cs : List Call)
      → q ≢ null
      → p ≢ q
      → html_one doc options true (is_enter e) p ≡ ok cs
      → html_node doc options e p q ≡ ok (cs, q)
  unfolding html_node html_one
  below_image e p q cs some_q apart h =
      let a : (q == p) ≡ false = ground arith in
      let b : (q == null) ≡ false = ground arith in rw (a, b, h)

  -- The event that ends the image.
  pub back :
      (p : Ptr) (cs : List Call)
      → html_one doc options false false p ≡ ok cs
      → html_node doc options exit p p ≡ ok (cs, null)
  unfolding html_node html_one is_enter plain_after
  back p cs h =
      let a : (p == p) ≡ true = ground arith in
      elim (Bool-cases (is_image (doc.nodes p).type)) [
        | inl i ↦ rw (a, h, i)
        | inr i ↦ rw (a, h, i)
      ]

  pub leaf-no_image : (t : NodeType) → is_leaf t ≡ true → is_image t ≡ false
  unfolding is_leaf is_image
  leaf-no_image image h = cc h
  leaf-no_image _ h = refl

  -- An event that leaves the state as it is outside an image, and one that enters an image.
  pub outside_null :
      (e : EventType) (p : Ptr) (cs : List Call)
      → (is_image (doc.nodes p).type && is_enter e) ≡ false
      → html_one doc options false (is_enter e) p ≡ ok cs
      → html_node doc options e p null ≡ ok (cs, null)
  unfolding plain_after
  outside_null e p cs no_image h = outside e p cs h ∙ rw no_image

  pub into_image :
      (p : Ptr) (cs : List Call)
      → is_image (doc.nodes p).type ≡ true
      → html_one doc options false true p ≡ ok cs
      → html_node doc options enter p null ≡ ok (cs, p)
  unfolding plain_after is_enter
  into_image p cs is h = outside enter p cs h ∙ rw is
