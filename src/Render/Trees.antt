-- ===== src/Render/Trees.antt =====
-- The tree below a node, as the events of a walk show it; no node stands below itself.
use cmark.Prelude.{
  ℕ, ◌≤◌, ◌≡◌, ◌≢◌, refl, ap, ◌∙◌, false, List, [], ◌∷◌, ◌++◌, length, length-append, arith,
}
use mathlib.Core.Path.{subst}
use cmark.Node.{Ptr, Links, null}
use cmark.Iterator.{enter, exit, State, at, is_leaf}
use cmark.Iterator.Walk.{Subtree, leaf, bare, inner, Siblings, final, more}

mutual
  pub data Tree : Type 0 where
    node : Ptr → Trees → Tree

  pub data Trees : Type 0 where
    none : Trees
    also : Tree → Trees → Trees

unfoldable mutual
  pub shape : {s : Links} {root p : Ptr} {es : List State} → Subtree s root p es → Tree
  shape {p = p} (leaf a b) = node p none
  shape {p = p} (bare a b c) = node p none
  shape {p = p} (inner a b c d) = node p (shapes d)

  pub shapes : {s : Links} {root m c : Ptr} {es : List State} → Siblings s root m c es → Trees
  shapes (final a b d tree) = also (shape tree) none
  shapes (more a b tree rest) = also (shape tree) (shapes rest)

abbrev pub AllEvents : (State → Type 0) → List State → Type 0
AllEvents P [] = Unit {0}
AllEvents P (e ∷ es) = P e × AllEvents P es

pub AllEvents-append :
    (P : State → Type 0) (es fs : List State)
    → AllEvents P es
    → AllEvents P fs
    → AllEvents P (es ++ fs)
AllEvents-append P [] fs h k = k
AllEvents-append P (e ∷ es) fs h k = (h.0, AllEvents-append P es fs h.1 k)

pub AllEvents-left :
    (P : State → Type 0) (es fs : List State) → AllEvents P (es ++ fs) → AllEvents P es
AllEvents-left P [] fs h = tt
AllEvents-left P (e ∷ es) fs h = (h.0, AllEvents-left P es fs h.1)

pub AllEvents-right :
    (P : State → Type 0) (es fs : List State) → AllEvents P (es ++ fs) → AllEvents P fs
AllEvents-right P [] fs h = h
AllEvents-right P (e ∷ es) fs h = AllEvents-right P es fs h.1

pub AllEvents-mono :
    (P Q : State → Type 0) (es : List State)
    → ((e : State) → P e → Q e)
    → AllEvents P es
    → AllEvents Q es
AllEvents-mono P Q [] weaken h = tt
AllEvents-mono P Q (e ∷ es) weaken h = (weaken e h.0, AllEvents-mono P Q es weaken h.1)

-- The links decide the events.
mutual
  Subtree-unique :
      {s : Links} {root p : Ptr} {es fs : List State}
      → Subtree s root p es
      → Subtree s root p fs
      → es ≡ fs
  Subtree-unique (leaf a b) (leaf c d) = refl
  Subtree-unique (leaf a b) (bare c d e) = cc
  Subtree-unique (leaf a b) (inner c d e f) = cc
  Subtree-unique (bare a b c) (leaf d e) = cc
  Subtree-unique (bare a b c) (bare d e f) = refl
  Subtree-unique (bare a b c) (inner d e f g) = absurd (f c)
  Subtree-unique (inner a b c d) (leaf e f) = cc
  Subtree-unique (inner a b c d) (bare e f g) = absurd (c g)
  Subtree-unique {p = p} (inner a b c d) (inner e f g h) =
      ap (λ t. at enter p ∷ (t ++ at exit p ∷ [])) (Siblings-unique d h)

  Siblings-unique :
      {s : Links} {root m n c : Ptr} {es fs : List State}
      → Siblings s root m c es
      → Siblings s root n c fs
      → es ≡ fs
  Siblings-unique (final a b d t) (final e f g u) = Subtree-unique t u
  Siblings-unique (final a b d t) (more e f u r) = absurd (f b)
  Siblings-unique (more a b t r) (final e f g u) = absurd (b f)
  Siblings-unique (more {es = xs} {fs = ys} a b t r) (more {es = zs} {fs = ws} c d u q) =
      ap (λ l. l ++ ys) (Subtree-unique t u) ∙ ap (λ l. zs ++ l) (Siblings-unique r q)

-- The node of an event has a tree of at most `n` events.
abbrev HasTree : Links → Ptr → ℕ → State → Type 0
HasTree s root n e = (fs : List State) × Subtree s root e.node fs × (length fs ≤ n)

HasTree-mono :
    (s : Links) (root : Ptr) (n m : ℕ) (es : List State)
    → n ≤ m
    → AllEvents (HasTree s root n) es
    → AllEvents (HasTree s root m) es
HasTree-mono s root n m es le h =
    AllEvents-mono (HasTree s root n) (HasTree s root m) es (λ e (fs, t, k). (fs, t, omega arith)) h

mutual
  Subtree-HasTree :
      {s : Links} {root p : Ptr} {es : List State}
      → Subtree s root p es
      → AllEvents (HasTree s root (length es)) es
  Subtree-HasTree {s} {root} {p} (leaf a b) = ((_, leaf a b, omega arith), tt)
  Subtree-HasTree (bare a b c) = ((_, bare a b c, omega arith), ((_, bare a b c, omega arith), tt))
  Subtree-HasTree {s} {root} {p} (inner {es = es} a b c d) =
      let whole : Subtree s root p (at enter p ∷ (es ++ at exit p ∷ [])) = inner a b c d in
      let n = length (at enter p ∷ (es ++ at exit p ∷ [])) in
      let le : length es ≤ n = omega (arith, length-append es (at exit p ∷ [])) in
      let below = HasTree-mono s root (length es) n es le (Siblings-HasTree d) in
      (
        (_, whole, omega arith),
        AllEvents-append (HasTree s root n) es (at exit p ∷ []) below ((_, whole, omega arith), tt),
      )

  Siblings-HasTree :
      {s : Links} {root m c : Ptr} {es : List State}
      → Siblings s root m c es
      → AllEvents (HasTree s root (length es)) es
  Siblings-HasTree (final a b d t) = Subtree-HasTree t
  Siblings-HasTree {s} {root} (more {es = es} {fs = fs} a b t r) =
      let n = length (es ++ fs) in
      let left : length es ≤ n = omega (arith, length-append es fs) in
      let right : length fs ≤ n = omega (arith, length-append es fs) in
      AllEvents-append (HasTree s root n) es fs
        (HasTree-mono s root (length es) n es left (Subtree-HasTree t))
        (HasTree-mono s root (length fs) n fs right (Siblings-HasTree r))

abbrev pub Apart : Ptr → List State → Type 0
Apart p es = AllEvents (λ e. e.node ≢ p) es

-- A node does not come again below itself.
pub Siblings-Apart :
    {s : Links} {root p : Ptr} {es : List State}
    → p ≢ null
    → is_leaf (s.type p) ≡ false
    → s.first_child p ≢ null
    → Siblings s root p (s.first_child p) es
    → Apart p es
Siblings-Apart {s} {root} {p} {es} a b c d =
    AllEvents-mono (HasTree s root (length es)) (λ e. e.node ≢ p) es again (Siblings-HasTree d)
  where
    again : (e : State) → HasTree s root (length es) e → e.node ≢ p
    again e (fs, t, le) same =
        let there : Subtree s root p fs = subst (λ q. Subtree s root q fs) same t in
        let equal = Subtree-unique there (inner a b c d) in
        omega (arith, ap length equal, le, length-append es (at exit p ∷ []))
