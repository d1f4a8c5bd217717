-- ===== src/Html/Safe.antt =====
-- What the option SAFE keeps out of the HTML.
use cmark.Prelude.{
  ℕ, ◌≡◌, refl, ap, ◌∙◌, inl, inr, Bool, true, false, ◌||◌, ◌==◌, if◌then◌else◌, Bool-cases, List,
  [], ◌∷◌, ◌++◌, Run, ok, aborted, fault, out_of_fuel, ◌>>=◌, codes, ==_iff,
}
use mathlib.Core.Path.{subst}
use cmark.Chunk.{Chunk, memory_of}
use cmark.Node.{
  Ptr, NodeType, no_node, document, block_quote, list, item, code_block, html_block, custom_block,
  paragraph, heading, thematic_break, text, softbreak, linebreak, code, html_inline, custom_inline,
  emph, strong, link, image,
}
use cmark.Node.Content.{Node, list_of, code_of, link_of, literal_of, heading_of}
use cmark.Iterator.{is_leaf}
use cmark.Scanners.{scan}
use cmark.Scanners.Table.{scan_dangerous_url}
use cmark.Render.{Document, Call, put_chunk, put_href}
use cmark.Render.Trees.{Tree, node, Trees, none, also}
use cmark.Html.{
  has_option, opt_safe, say, sourcepos, html_url, html_title, html_calls, html_plain,
  html_list_start, html_list_end, html_heading, html_code_block, info_attribute, raw_html,
  html_paragraph, html_softbreak, html_link, html_image, is_image, is_bullet, is_one, first_tag,
  in_tight_list,
}
use cmark.Html.Nested.{html_one, html_end, html_tree, html_trees}

-- A call that puts no text of the document as it is, and no URL that the scanner takes for dangerous.
abbrev pub IsSafe : Call → Type 0
IsSafe (put_chunk c) = ⊥
IsSafe (put_href c) = scan scan_dangerous_url c 0 ≡ ok 0
IsSafe _ = Unit {0}

abbrev pub AllSafe : List Call → Type 0
AllSafe [] = Unit {0}
AllSafe (c ∷ cs) = IsSafe c × AllSafe cs

append : (cs ds : List Call) → AllSafe cs → AllSafe ds → AllSafe (cs ++ ds)
append [] ds h k = k
append (c ∷ cs) ds h k = (h.0, append cs ds h.1 k)

-- Whatever a run returns is safe.
abbrev Safely : Run (List Call) → Type 0
Safely (ok cs) = AllSafe cs
Safely (aborted e) = Unit {0}
Safely fault = Unit {0}
Safely out_of_fuel = Unit {0}

after :
    {A : Type 0} (r : Run A) (k : A → Run (List Call))
    → ((a : A) → r ≡ ok a → Safely (k a))
    → Safely (r >>= k)
after (ok a) k h = h a refl
after (aborted e) k h = tt
after fault k h = tt
after out_of_fuel k h = tt

unfoldable pub is_custom : NodeType → Bool
is_custom custom_block = true
is_custom custom_inline = true
is_custom _ = false

-- No custom block or inline in a tree.
abbrev mutual
  pub NoCustom : Document → Tree → Type 0
  NoCustom doc (node p ts) = (is_custom (doc.nodes p).type ≡ false) × NoCustoms doc ts

  pub NoCustoms : Document → Trees → Type 0
  NoCustoms doc none = Unit {0}
  NoCustoms doc (also t ts) = NoCustom doc t × NoCustoms doc ts

module _ (doc : Document) (options : ℕ) (safe : has_option options opt_safe ≡ true) where
  sourcepos-safe : (n : Node) (ds : List Call) → AllSafe ds → AllSafe (sourcepos n options ++ ds)
  unfolding sourcepos
  sourcepos-safe n ds h = elim (Bool-cases (has_option options 2)) [
    | inl on ↦ rw on (tt, h)
    | inr off ↦ rw off h
  ]

  title-safe : (c : Chunk) (ds : List Call) → AllSafe ds → AllSafe (html_title c ++ ds)
  unfolding html_title
  title-safe c ds h = elim (Bool-cases (c.len == 0)) [ inl e ↦ rw e h | inr e ↦ rw e (tt, (tt, h)) ]

  url-safe : (url : Chunk) → Safely (html_url url options)
  unfolding html_url
  url-safe url = rw safe (after (scan scan_dangerous_url url 0) _ by_result)
    where
      by_result :
          (n : ℕ)
          → scan scan_dangerous_url url 0 ≡ ok n
          → AllSafe (if n == 0 then put_href url ∷ [] else [])
      by_result n e = elim (Bool-cases (n == 0)) [
        | inl h ↦ let zero_n : n ≡ 0 = (==_iff n 0).0 h in rw h (e ∙ ap (λ k. ok k) zero_n, tt)
        | inr h ↦ rw h tt
      ]

  raw-safe : (n : Node) → Safely (raw_html n options)
  unfolding raw_html
  raw-safe n = rw safe (tt, tt)

  list-safe : (n : Node) → Safely (html_list_start n options)
  unfolding html_list_start
  list-safe n = after (list_of n.value) _ (λ l e. elim (Bool-cases (is_bullet l.list_type)) [
    | inl h ↦ rw h (tt, (tt, sourcepos-safe n _ (tt, tt)))
    | inr h ↦ elim (Bool-cases (is_one l.start)) [
      | inl k ↦ rw (h, k) (tt, (tt, sourcepos-safe n _ (tt, tt)))
      | inr k ↦ rw (h, k) (tt, (tt, sourcepos-safe n _ (tt, tt)))
    ]
  ])

  tag-safe :
      (info : Chunk)
      → Safely (if info.len == 0 then ok (say (codes "><code>")) else info_attribute info)
  unfolding info_attribute
  tag-safe info = elim (Bool-cases (info.len == 0)) [
    | inl h ↦ rw h (tt, tt)
    | inr h ↦ rw h (
        after (memory_of info.bytes) _
          (λ m e. after (first_tag info.len m 0) _ (λ k f. (tt, (tt, (tt, tt))))))
  ]

  code-safe : (n : Node) → Safely (html_code_block n options)
  unfolding html_code_block
  code-safe n = after (code_of n.value) _ (λ d e.
      after (if d.info.len == 0 then ok (say (codes "><code>")) else info_attribute d.info) _
        (λ tag f. (
          tt,
          (tt, sourcepos-safe n _ (append tag _ (subst Safely f (tag-safe d.info)) (tt, (tt, tt)))),
        )))

  paragraph-safe : (entering : Bool) (p : Ptr) → Safely (html_paragraph entering doc p options)
  unfolding html_paragraph
  paragraph-safe true p = after (in_tight_list doc p) _ (λ tight e. elim (Bool-cases tight) [
    | inl h ↦ rw h tt
    | inr h ↦ rw h (tt, (tt, sourcepos-safe (doc.nodes p) _ (tt, tt)))
  ])
  paragraph-safe false p =
      after (in_tight_list doc p) _
        (λ tight e. elim (Bool-cases tight) [ inl h ↦ rw h tt | inr h ↦ rw h (tt, tt) ])

  softbreak-safe : AllSafe (html_softbreak options)
  unfolding html_softbreak
  softbreak-safe = elim (Bool-cases (has_option options 4)) [
    | inl h ↦ rw h (tt, tt)
    | inr h ↦ elim (Bool-cases (has_option options 16)) [
      | inl k ↦ rw (h, k) (tt, tt)
      | inr k ↦ rw (h, k) (tt, tt)
    ]
  ]

  link-safe : (entering : Bool) (n : Node) → Safely (html_link entering n options)
  unfolding html_link
  link-safe true n = after (link_of n.value) _ (λ l e. after (html_url l.url options) _ (λ url f.
      (tt, append url _ (subst Safely f (url-safe l.url)) (title-safe l.title _ (tt, tt)))))
  link-safe false n = (tt, tt)

  image-safe : (entering : Bool) (n : Node) → Safely (html_image entering n options)
  unfolding html_image
  image-safe true n = after (link_of n.value) _ (λ l e.
      after (html_url l.url options) _
        (λ url f. (tt, append url _ (subst Safely f (url-safe l.url)) (tt, tt))))
  image-safe false n = after (link_of n.value) _ (λ l e. title-safe l.title _ (tt, tt))

  plain-safe : (t : NodeType) (n : Node) → Safely (html_plain t n)
  unfolding html_plain
  plain-safe text n = after (literal_of n.value) _ (λ c e. (tt, tt))
  plain-safe code n = after (literal_of n.value) _ (λ c e. (tt, tt))
  plain-safe html_inline n = after (literal_of n.value) _ (λ c e. (tt, tt))
  plain-safe linebreak n = (tt, tt)
  plain-safe softbreak n = (tt, tt)
  plain-safe _ n = tt

  calls-safe :
      (t : NodeType) (entering : Bool) (p : Ptr)
      → is_custom t ≡ false
      → Safely (html_calls t entering doc p options)
  unfolding html_calls is_custom html_heading html_list_end
  calls-safe document entering p h = tt
  calls-safe block_quote true p h = (tt, (tt, sourcepos-safe (doc.nodes p) _ (tt, tt)))
  calls-safe block_quote false p h = (tt, (tt, tt))
  calls-safe list true p h = list-safe (doc.nodes p)
  calls-safe list false p h = after (list_of (doc.nodes p).value) _ (λ l e. (tt, tt))
  calls-safe item true p h = (tt, (tt, sourcepos-safe (doc.nodes p) _ (tt, tt)))
  calls-safe item false p h = (tt, tt)
  calls-safe heading true p h =
      after (heading_of (doc.nodes p).value) _
        (λ d e. (tt, (tt, sourcepos-safe (doc.nodes p) _ (tt, tt))))
  calls-safe heading false p h = after (heading_of (doc.nodes p).value) _ (λ d e. (tt, (tt, tt)))
  calls-safe code_block entering p h = code-safe (doc.nodes p)
  calls-safe html_block entering p h =
      after (raw_html (doc.nodes p) options) _
        (λ cs e. (tt, append cs _ (subst Safely e (raw-safe (doc.nodes p))) (tt, tt)))
  calls-safe custom_block entering p h = cc h
  calls-safe thematic_break entering p h = (tt, (tt, sourcepos-safe (doc.nodes p) _ (tt, tt)))
  calls-safe paragraph entering p h = paragraph-safe entering p
  calls-safe text entering p h = plain-safe text (doc.nodes p)
  calls-safe linebreak entering p h = (tt, tt)
  calls-safe softbreak entering p h = softbreak-safe
  calls-safe code entering p h =
      after (literal_of (doc.nodes p).value) _ (λ c e. (tt, (tt, (tt, tt))))
  calls-safe html_inline entering p h = raw-safe (doc.nodes p)
  calls-safe custom_inline entering p h = cc h
  calls-safe strong true p h = (tt, tt)
  calls-safe strong false p h = (tt, tt)
  calls-safe emph true p h = (tt, tt)
  calls-safe emph false p h = (tt, tt)
  calls-safe link entering p h = link-safe entering (doc.nodes p)
  calls-safe image entering p h = image-safe entering (doc.nodes p)
  calls-safe no_node entering p h = tt

  one-safe :
      (plain entering : Bool) (p : Ptr)
      → is_custom (doc.nodes p).type ≡ false
      → Safely (html_one doc options plain entering p)
  unfolding html_one
  one-safe true entering p h = plain-safe (doc.nodes p).type (doc.nodes p)
  one-safe false entering p h = calls-safe (doc.nodes p).type entering p h

  end-safe :
      (plain : Bool) (p : Ptr)
      → is_custom (doc.nodes p).type ≡ false
      → Safely (html_end doc options plain p)
  unfolding html_end
  end-safe plain p h = elim (Bool-cases (is_leaf (doc.nodes p).type)) [
    | inl e ↦ rw e tt
    | inr e ↦ rw e (one-safe plain false p h)
  ]

  mutual
    unfolding html_tree

    tree-safe : (plain : Bool) (t : Tree) → NoCustom doc t → Safely (html_tree doc options plain t)
    tree-safe plain (node p ts) h =
        let below = trees-safe (plain || is_image (doc.nodes p).type) ts h.1 in
        after (html_one doc options plain true p) _ (λ start e.
          after (html_trees doc options (plain || is_image (doc.nodes p).type) ts) _ (λ inside f.
            after (html_end doc options plain p) _ (λ end g.
              append start _ (subst Safely e (one-safe plain true p h.0)) (
                append inside end (subst Safely f below) (subst Safely g (end-safe plain p h.0))))))

    trees-safe :
        (plain : Bool) (ts : Trees) → NoCustoms doc ts → Safely (html_trees doc options plain ts)
    trees-safe plain none h = tt
    trees-safe plain (also t ts) h =
        let first = tree-safe plain t h.0 in
        let rest = trees-safe plain ts h.1 in
        after (html_tree doc options plain t) _ (λ cs e.
          after (html_trees doc options plain ts) _
            (λ ds f. append cs ds (subst Safely e first) (subst Safely f rest)))

  -- With the option SAFE, in a tree without custom blocks and inlines, the calls for the tree put no
  -- text of the document as it is, and no URL that scan_dangerous_url matches.
  pub html_tree-AllSafe :
      (t : Tree) (cs : List Call)
      → NoCustom doc t
      → html_tree doc options false t ≡ ok cs
      → AllSafe cs
  html_tree-AllSafe t cs h e = subst Safely e (tree-safe false t h)
