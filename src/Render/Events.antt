-- ===== src/Render/Events.antt =====
-- The loop of a renderer, against the calls that it makes for a list of events.
use cmark.Prelude.{
  suc, ◌≤◌, ◌≡◌, refl, ap, false, some, List, [], ◌∷◌, ◌++◌, append_assoc, length, Bytes, Run, ok,
  arith,
}
use cmark.Alloc.{Libc}
use cmark.Buffer.{Strbuf, int32_max}
use cmark.Buffer.Layout.{Holds, Ends, done, bind}
use cmark.Buffer.Layout.Detach.{detach-Holds}
use cmark.Node.{Ptr, Links, null}
use cmark.Iterator.{EventType, event_none, event_done, State, at, Iter, iter_next, iter_new, fresh}
use cmark.Iterator.Walk.{
  Subtree, leaf, bare, inner, Siblings, final, more, Steps, stop, step, done_again, walk-root,
  iter_new-fresh,
}
use cmark.Render.{Call, is_done, render_loop, render_events}
use cmark.Render.Written.{AllPut, written, written-append, length-written, perform_all-written}

-- Events of a tree, which do not end the walk.
abbrev pub AllBusy : List State → Type 0
AllBusy [] = Unit {0}
AllBusy (e ∷ es) = (is_done e.ev_type ≡ false) × AllBusy es

AllBusy-append : (es fs : List State) → AllBusy es → AllBusy fs → AllBusy (es ++ fs)
AllBusy-append [] fs h k = k
AllBusy-append (e ∷ es) fs h k = (h.0, AllBusy-append es fs h.1 k)

AllPut-append : (cs ds : List Call) → AllPut (cs ++ ds) → AllPut cs × AllPut ds
AllPut-append [] ds h = (tt, h)
AllPut-append (c ∷ cs) ds h = let (a, b) = AllPut-append cs ds h.1 in ((h.0, a), b)

mutual
  unfolding is_done

  pub Subtree-AllBusy :
      (s : Links) (root p : Ptr) (es : List State) → Subtree s root p es → AllBusy es
  Subtree-AllBusy s root p _ (leaf a b) = (refl, tt)
  Subtree-AllBusy s root p _ (bare a b c) = (refl, (refl, tt))
  Subtree-AllBusy s root p _ (inner a b c d) =
      (refl, AllBusy-append _ _ (Siblings-AllBusy s root p _ _ d) (refl, tt))

  Siblings-AllBusy :
      (s : Links) (root m c : Ptr) (es : List State) → Siblings s root m c es → AllBusy es
  Siblings-AllBusy s root m c es (final a b d tree) = Subtree-AllBusy s root c es tree
  Siblings-AllBusy s root m c _ (more a b tree rest) =
      AllBusy-append _ _ (Subtree-AllBusy s root c _ tree) (Siblings-AllBusy s root m _ _ rest)

module _ {S : Type 0} (render_node : EventType → Ptr → S → Run (List Call × S)) where
  -- The calls for a list of events, from a state of the renderer to another.
  pub data Renders : S → List State → List Call → S → Type 0 where
    nothing : {st : S} → Renders st [] [] st
    event :
        {st st₁ st₂ : S} {e : State} {es : List State} {cs ds : List Call}
        → render_node e.ev_type e.node st ≡ ok (cs, st₁)
        → Renders st₁ es ds st₂
        → Renders st (e ∷ es) (cs ++ ds) st₂

  pub Renders-append :
      {st st₁ st₂ : S} {es fs : List State} {cs ds : List Call}
      → Renders st es cs st₁
      → Renders st₁ fs ds st₂
      → Renders st (es ++ fs) (cs ++ ds) st₂
  Renders-append nothing t = t
  Renders-append {ds = ds} (event {cs = ks} {ds = ls} h r) t =
      rw (append_assoc ks ls ds) (event h (Renders-append r t))

  module _ ⦃libc : Libc⦄ where
    -- The loop writes the text of the calls, with a round for each event and one for the end.
    pub render_loop-written :
        {s : Links} {root : Ptr} {i : State} {es : List State} {cs : List Call} {st st₁ : S}
        (cur : State) (b : Strbuf) (t : Bytes)
        → Steps s root i es (at event_done null)
        → AllBusy es
        → Renders st es cs st₁
        → AllPut cs
        → Holds b t
        → length (written cs t) ≤ int32_max
        → Ends
            (length (written cs t))
            (λ b'. Holds b' (written cs t))
            (render_loop render_node
              (suc (length es))
              s
              (record { root = root; cur = cur; next = i })
              st
              b)
    unfolding render_loop iter_next is_done written
    render_loop-written {s} {root} cur b t stop busy nothing can h fits =
        rw (done_again s root) (done h)
    render_loop-written cur b t (step {i} {j} {k} {es} e walk) busy
          (event {cs = ks} {ds = ls} r rest) can h fits =
        let (now, later) = AllPut-append ks ls can in
        let split = written-append ks ls t in
        let grows = length-written ls (written ks t) in
        rw (e, busy.0, r, split)
          (bind (perform_all-written ks b t now h (omega (arith, ap length split, grows, fits)))
            (omega (arith, ap length split, grows))
            λ b' h'.
              render_loop-written i b' (written ks t) walk busy.1 rest later h'
                (omega (arith, ap length split, fits)))

    -- The text that is handed over at the end.
    pub render_events-written :
        {s : Links} {root : Ptr} {es : List State} {cs : List Call} {st st₁ : S} {iter : Iter}
        (b : Strbuf) (t : Bytes)
        → Subtree s root root es
        → iter_new root ≡ some iter
        → Renders st es cs st₁
        → AllPut cs
        → Holds b t
        → length (written cs t) ≤ int32_max
        → Ends
            (length (written cs t))
            (λ text. (junk : Bytes) × (text ≡ written cs t ++ 0 ∷ junk))
            (render_events render_node (suc (length es)) s (iter_new root) st b)
    unfolding render_events fresh
    render_events-written {s} {root} {es} b t tree e r can h fits =
        rw (e, iter_new-fresh root _ e)
          (bind
            (render_loop-written (at event_none null) b t (walk-root tree)
              (Subtree-AllBusy s root root es tree) r can h fits)
            (omega arith) λ html held. bind (detach-Holds held) (omega arith) λ q k. done k)
