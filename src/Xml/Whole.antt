-- ===== src/Xml/Whole.antt =====
-- What cmark_render_xml returns for a tree.
use cmark.Prelude.{ℕ, suc, ◌≤◌, ◌≡◌, true, some, List, [], ◌∷◌, ◌++◌, length, Bytes, ok, arith}
use cmark.Alloc.{Libc}
use cmark.Buffer.{empty, int32_max}
use cmark.Buffer.Layout.{empty-Holds, Ends, bind}
use cmark.Node.{Ptr, null}
use cmark.Iterator.{State, Iter, iter_new, is_leaf}
use cmark.Iterator.Walk.{Subtree}
use cmark.Render.{Document, tree_of, Call}
use cmark.Render.Written.{AllPut, written, length-written, perform_all-written}
use cmark.Render.Events.{render_events-written}
use cmark.Render.Trees.{shape}
use cmark.Xml.{xml_node, prologue, render_xml}
use cmark.Xml.Nested.{xml_tree, xml-Makes}

module _ ⦃libc : Libc⦄ where
  -- For a tree whose calls by recursion are `cs`, where the nodes of the leaf types have no children,
  -- and with fuel for one round more than the tree has events, cmark_render_xml returns the prologue
  -- with the text of these calls behind it and a terminator, if the chunks that it puts can be read and
  -- the text fits a buffer. Otherwise memory runs out, or the code aborts on a length past its limit.
  pub render_xml-xml_tree :
      {root : Ptr} {iter : Iter} {es : List State} (doc : Document) (options : ℕ) (cs : List Call)
      (tree : Subtree (tree_of doc) root root es)
      → iter_new root ≡ some iter
      → ((p : Ptr) → is_leaf (doc.nodes p).type ≡ true → doc.links.first_child p ≡ null)
      → xml_tree doc options 0 (shape tree) ≡ ok cs
      → AllPut cs
      → length (written cs (written prologue [])) ≤ int32_max
      → Ends
          (length (written cs (written prologue [])))
          (λ text. (junk : Bytes) × (text ≡ written cs (written prologue []) ++ 0 ∷ junk))
          (render_xml (suc (length es)) doc root options)
  unfolding render_xml
  render_xml-xml_tree doc options cs tree e leaves h can fits =
      let first = written prologue [] in
      let grows = length-written cs first in
      bind
        (perform_all-written prologue empty [] (unfold prologue in (tt, (tt, tt))) empty-Holds
          (omega (arith, grows, fits)))
        (omega (arith, grows))
        λ xml held.
          render_events-written (xml_node doc options) xml first tree e
            (xml-Makes doc options leaves 0 cs tree h) can held fits
