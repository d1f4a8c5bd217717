-- ===== src/Html/Whole.antt =====
-- What cmark_render_html returns for a tree.
use cmark.Prelude.{ℕ, suc, ◌≤◌, ◌≡◌, false, some, List, [], ◌∷◌, ◌++◌, length, Bytes, ok}
use cmark.Alloc.{Libc}
use cmark.Buffer.{empty, int32_max}
use cmark.Buffer.Layout.{empty-Holds, Ends}
use cmark.Node.{Ptr}
use cmark.Iterator.{State, Iter, iter_new}
use cmark.Iterator.Walk.{Subtree}
use cmark.Render.{Document, tree_of, Call}
use cmark.Render.Written.{AllPut, written}
use cmark.Render.Events.{render_events-written}
use cmark.Render.Trees.{shape}
use cmark.Html.{html_node, render_html}
use cmark.Html.Nested.{html_tree}
use cmark.Html.Makes.{html-Makes}

module _ ⦃libc : Libc⦄ where
  -- For a tree whose calls by recursion are `cs`, and with fuel for one round more than the tree has
  -- events, cmark_render_html returns the text of these calls with a terminator, if the chunks that it
  -- puts can be read and the text fits a buffer. Otherwise memory runs out, or the code aborts on a
  -- length past its limit.
  pub render_html-html_tree :
      {root : Ptr} {iter : Iter} {es : List State} (doc : Document) (options : ℕ) (cs : List Call)
      (tree : Subtree (tree_of doc) root root es)
      → iter_new root ≡ some iter
      → html_tree doc options false (shape tree) ≡ ok cs
      → AllPut cs
      → length (written cs []) ≤ int32_max
      → Ends
          (length (written cs []))
          (λ text. (junk : Bytes) × (text ≡ written cs [] ++ 0 ∷ junk))
          (render_html (suc (length es)) doc root options)
  unfolding render_html
  render_html-html_tree {root} {iter} {es} doc options cs tree e h can fits =
      render_events-written (html_node doc options) empty [] tree e
        (html-Makes doc options cs tree h) can empty-Holds fits
