-- ===== src/Tests/Walks.antt =====
-- The iterator on a concrete tree, and the texts of a concrete node.
use cmark.Prelude.{◌≡◌, refl, some, [], ◌∷◌, ◌++◌, List, Returns, ok, arith}
use cmark.Buffer.Layout.{Ends}
use cmark.Chunk.{empty_chunk}
use cmark.Node.{null, link}
use cmark.Node.Content.{new_node, initial_as, link_url, link_of, read_slot}
use cmark.Node.Content.Accessors.{url_case}
use cmark.Node.Content.RoundTrip.{url_text, Gives, get_text, set_text, get_text-set_text}
use cmark.Iterator.{State, at, enter, exit, event_done, is_leaf, iter_new, fresh}
use cmark.Iterator.Walk.{Subtree, bare, inner, Siblings, final, more, calls, calls-Subtree}
use cmark.Tests.{libc_example, codes, tree_example}

abbrev events : List State
events = at enter 1 ∷ at enter 2 ∷ at exit 2 ∷ at enter 3 ∷ at exit 3 ∷ at exit 1 ∷ []

tree_example-Subtree : Subtree tree_example 1 1 events
unfolding is_leaf
tree_example-Subtree =
    let third : Siblings tree_example 1 1 3 (at enter 3 ∷ at exit 3 ∷ []) =
      final {c = 3} (λ e. cc e) refl (λ e. cc e) (bare {p = 3} (λ e. cc e) refl refl) in
    let both : Siblings tree_example 1 1 2 (at enter 2 ∷ at exit 2 ∷ at enter 3 ∷ at exit 3 ∷ []) =
      more {c = 2} (λ e. cc e) (λ e. cc e) (bare {p = 2} (λ e. cc e) refl refl) third in
    inner {p = 1} (λ e. cc e) refl (λ e. cc e) both

new_iter : iter_new 1 ≡ some (fresh 1)
unfolding iter_new
new_iter = refl

calls-Subtree_example :
    Returns (λ r. r.0 ≡ events ++ at event_done null ∷ []) (calls 7 tree_example (fresh 1))
calls-Subtree_example = calls-Subtree tree_example-Subtree new_iter

link_case : url_case (new_node link).type ≡ some link_url
unfolding url_case new_node
link_case = refl

no_url : read_slot link_url (new_node link).value ≡ ok empty_chunk
unfolding read_slot new_node initial_as link_of
no_url = refl

get_text-set_text_example :
    Ends 0
      (Gives (get_text url_text) (codes "/u"))
      (set_text url_text (some (new_node link)) (some (codes "/u")))
get_text-set_text_example =
    get_text-set_text url_text (new_node link) link_url empty_chunk (codes "/u") link_case no_url
      (omega arith)
