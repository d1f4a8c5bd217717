-- ===== src/Iterator/Walk.antt =====
-- The events that an iterator reports: the nodes below the root in document order.
use cmark.Prelude.{
  some, inl, inr, Bool-cases, Returns, returns, Returns-mono, Returns-bind, ◌+◌, length-append, ℕ,
  zero, suc, ◌≡◌, ◌≢◌, refl, true, false, ◌==◌, List, [], ◌∷◌, ◌++◌, length, Run, ok, ◌>>=◌, ◌∙◌,
  ap, arith,
}
use cmark.Node.{Ptr, null, Links}
use cmark.Iterator.{
  event_none, event_done, enter, exit, State, at, Iter, is_leaf, iter_new, fresh, leave, forward,
  forward_from, iter_next,
}

-- The events of the nodes from `p` down, and of `c` and the siblings behind it, below `m`. The nodes
-- other than the root of the walk are apart from it.
mutual
  pub data Subtree (s : Links) (root : Ptr) : Ptr → List State → Type 0 where
    leaf : {p : Ptr} → p ≢ null → is_leaf (s.type p) ≡ true → Subtree s root p (at enter p ∷ [])
    bare :
        {p : Ptr}
        → p ≢ null
        → is_leaf (s.type p) ≡ false
        → s.first_child p ≡ null
        → Subtree s root p (at enter p ∷ at exit p ∷ [])
    inner :
        {p : Ptr} {es : List State}
        → p ≢ null
        → is_leaf (s.type p) ≡ false
        → s.first_child p ≢ null
        → Siblings s root p (s.first_child p) es
        → Subtree s root p (at enter p ∷ (es ++ at exit p ∷ []))

  pub data Siblings (s : Links) (root : Ptr) : Ptr → Ptr → List State → Type 0 where
    final :
        {c : Ptr} {es : List State}
        → c ≢ root
        → s.next c ≡ null
        → s.parent c ≢ null
        → Subtree s root c es
        → Siblings s root (s.parent c) c es
    more :
        {c m : Ptr} {es fs : List State}
        → c ≢ root
        → s.next c ≢ null
        → Subtree s root c es
        → Siblings s root m (s.next c) fs
        → Siblings s root m c (es ++ fs)

-- The events from a state up to another.
pub data Steps (s : Links) (root : Ptr) : State → List State → State → Type 0 where
  stop : {i : State} → Steps s root i [] i
  step :
      {i j k : State} {es : List State}
      → forward s root i ≡ ok j
      → Steps s root j es k
      → Steps s root i (i ∷ es) k

join :
    {s : Links} {root : Ptr} {i j k : State} {es fs : List State}
    → Steps s root i es j
    → Steps s root j fs k
    → Steps s root i (es ++ fs) k
join stop t = t
join (step e r) t = step e (join r t)

module _ (s : Links) (root : Ptr) (p : Ptr) (some_p : p ≢ null) where
  present : (p == null) ≡ false
  present = ground arith

  enter-leaf : is_leaf (s.type p) ≡ true → forward s root (at enter p) ≡ leave s root p
  unfolding forward forward_from
  enter-leaf e = rw (present, e)

  enter-bare :
      is_leaf (s.type p) ≡ false
      → s.first_child p ≡ null
      → forward s root (at enter p) ≡ ok (at exit p)
  unfolding forward forward_from
  enter-bare e none_below = rw (present, e, none_below)

  enter-inner :
      is_leaf (s.type p) ≡ false
      → s.first_child p ≢ null
      → forward s root (at enter p) ≡ ok (at enter (s.first_child p))
  unfolding forward forward_from
  enter-inner e below =
      let some_below : (s.first_child p == null) ≡ false = ground arith in
      rw (present, e, some_below)

  exit-leave : forward s root (at exit p) ≡ leave s root p
  unfolding forward forward_from
  exit-leave = rw present

leave-next :
    (s : Links) (root c : Ptr)
    → c ≢ root
    → s.next c ≢ null
    → leave s root c ≡ ok (at enter (s.next c))
unfolding leave
leave-next s root c apart more_left =
    let a : (c == root) ≡ false = ground arith in
    let b : (s.next c == null) ≡ false = ground arith in rw (a, b)

leave-up :
    (s : Links) (root c : Ptr)
    → c ≢ root
    → s.next c ≡ null
    → s.parent c ≢ null
    → leave s root c ≡ ok (at exit (s.parent c))
unfolding leave
leave-up s root c apart last_one below =
    let a : (c == root) ≡ false = ground arith in
    let b : (s.parent c == null) ≡ false = ground arith in rw (a, last_one, b)

mutual
  walk-Subtree :
      (s : Links) (root p : Ptr) (es : List State) (q : State)
      → Subtree s root p es
      → leave s root p ≡ ok q
      → Steps s root (at enter p) es q
  walk-Subtree s root p _ q (leaf some_p e) left = step (enter-leaf s root p some_p e ∙ left) stop
  walk-Subtree s root p _ q (bare some_p e none_below) left =
      step (enter-bare s root p some_p e none_below) (step (exit-leave s root p some_p ∙ left) stop)
  walk-Subtree s root p _ q (inner some_p e below children) left =
      step (enter-inner s root p some_p e below) (
        join (walk-Siblings s root p (s.first_child p) _ children)
          (step (exit-leave s root p some_p ∙ left) stop))

  walk-Siblings :
      (s : Links) (root m c : Ptr) (es : List State)
      → Siblings s root m c es
      → Steps s root (at enter c) es (at exit m)
  walk-Siblings s root m c es (final apart last_one below tree) =
      walk-Subtree s root c _ _ tree (leave-up s root c apart last_one below)
  walk-Siblings s root m c _ (more apart more_left tree rest) =
      join (walk-Subtree s root c _ _ tree (leave-next s root c apart more_left))
        (walk-Siblings s root m (s.next c) _ rest)

-- `n` calls of `cmark_iter_next`: the events they make current, and the iterator.
unfoldable pub calls : ℕ → Links → Iter → Run (List State × Iter)
calls zero s iter = ok ([], iter)
calls (suc n) s iter = iter_next s iter >>= λ r. calls n s r.1 >>= λ q. ok (r.1.cur ∷ q.0, q.1)

calls-Steps :
    {s : Links} {root : Ptr} {i j : State} {es : List State} (cur : State)
    → Steps s root i es j
    → Returns
        (λ r. (r.0 ≡ es) × (r.1.next ≡ j))
        (calls (length es) s (record { root = root; cur = cur; next = i }))
unfolding calls iter_next
calls-Steps cur stop = returns (refl, refl)
calls-Steps {s} {root} {i} cur (step {j} {k} {es} e rest) =
    rw e (Returns-bind (calls-Steps i rest) λ q h. returns (ap (λ t. i ∷ t) h.0, h.1))

pub done_again :
    (s : Links) (root : Ptr) → forward s root (at event_done null) ≡ ok (at event_done null)
unfolding forward forward_from
done_again s root = refl

pub leave-root : (s : Links) (root : Ptr) → leave s root root ≡ ok (at event_done null)
unfolding leave
leave-root s root = let same : (root == root) ≡ true = ground arith in rw same

pub iter_new-fresh : (root : Ptr) (iter : Iter) → iter_new root ≡ some iter → iter ≡ fresh root
unfolding iter_new
iter_new-fresh root iter e = elim (Bool-cases (root == null)) [
  | inl nothing ↦ cc (rw nothing at e)
  | inr given ↦ cc (rw given at e)
]

-- The walk over the whole tree.
pub walk-root :
    {s : Links} {root : Ptr} {es : List State}
    → Subtree s root root es
    → Steps s root (at enter root) es (at event_done null)
walk-root {s} {root} tree = walk-Subtree s root root _ _ tree (leave-root s root)

-- For the tree below a root, the calls of cmark_iter_next on the iterator that cmark_iter_new
-- returns report exactly its events, in document order: every node is entered, then come its
-- children from the first to the last, and then it is left, except that the nodes of the leaf types
-- are not left and what is below them is passed over; then the walk is done. No call faults.
pub calls-Subtree :
    {s : Links} {root : Ptr} {iter : Iter} {es : List State}
    → Subtree s root root es
    → iter_new root ≡ some iter
    → Returns (λ r. r.0 ≡ es ++ at event_done null ∷ []) (calls (length es + 1) s iter)
unfolding fresh
calls-Subtree {s} {root} {iter} {es} tree e =
    let walk = join (walk-root tree) (step (done_again s root) stop) in
    let same = iter_new-fresh root iter e in
    rw (same, fresh, ← length-append es (at event_done null ∷ []))
      (Returns-mono (calls-Steps (at event_none null) walk) λ r h. h.0)
