-- ===== src/Node/Content/RoundTrip.antt =====
-- What the setters of texts store, the getters return.
use cmark.Prelude.{
  ℕ, ◌<◌, ◌≤◌, ◌+◌, zero, suc, ◌≡◌, refl, ap, inl, inr, Bool, true, Option, some, [], ◌∷◌, ◌++◌,
  length, length-append, length-replicate, append-nil, Option-cases, ltb, leb, Bytes, drop, copy_in,
  Run, ok, aborted, fault, out_of_fuel, Returns, returns, ◌>>=◌, arith,
}
use cmark.Alloc.{Libc, xcalloc}
use cmark.Buffer.{int32_max}
use cmark.Buffer.Layout.{Ends, done, no_memory, bind, mono}
use cmark.Chunk.{Chunk, to_cstr, set_cstr}
use cmark.Node.{NodeType}
use cmark.Node.Content.{
  Node, As, as_literal, as_code, as_link, as_custom, Slot, literal_slot, code_info, code_literal,
  link_url, link_title, custom_enter, custom_exit, literal_of, code_of, link_of, custom_of,
  read_slot, write_slot,
}
use cmark.Node.Content.Accessors.{
  literal_case, info_case, url_case, title_case, enter_case, exit_case, get_slot, set_slot,
  get_literal, set_literal, get_fence_info, set_fence_info, get_url, set_url, get_title, set_title,
  get_on_enter, set_on_enter, get_on_exit, set_on_exit,
}

-- A union in which the slot is stored, with the chunk `c`.
pub record Stored (slot : Slot) (c : Chunk) (a : As) : Type 0 where
  pub reads : read_slot slot a ≡ ok c
  pub same : write_slot slot a c ≡ ok a

stored :
    {D : Type 0} (slot : Slot) (member : Run D) (get : D → Chunk) (put : D → As) (c c' : Chunk)
    → (member >>= λ d. ok (get d)) ≡ ok c
    → ((d : D) → Stored slot c' (put d))
    → Returns (Stored slot c') (member >>= λ d. ok (put d))
stored slot (ok d) get put c c' e s = returns (s d)
stored slot (aborted x) get put c c' e s = cc e
stored slot fault get put c c' e s = cc e
stored slot out_of_fuel get put c c' e s = cc e

literal_ok : (a : As) (c : Chunk) → literal_of a ≡ ok c → (literal_of a >>= λ d. ok d) ≡ ok c
literal_ok a c e = rw e

write_slot-Stored :
    (slot : Slot) (a : As) (c c' : Chunk)
    → read_slot slot a ≡ ok c
    → Returns (Stored slot c') (write_slot slot a c')
unfolding read_slot write_slot literal_of code_of link_of custom_of
write_slot-Stored literal_slot a c c' e =
    stored literal_slot (literal_of a) (λ d. d) (λ d. as_literal c') c c' (literal_ok a c e)
      (λ d. record { reads = refl; same = refl })
write_slot-Stored code_info a c c' e =
    stored code_info (code_of a) (λ d. d.info) (λ d. as_code (record d { info = c' })) c c' e
      (λ d. record { reads = refl; same = refl })
write_slot-Stored code_literal a c c' e =
    stored code_literal (code_of a) (λ d. d.literal) (λ d. as_code (record d { literal = c' })) c c'
      e (λ d. record { reads = refl; same = refl })
write_slot-Stored link_url a c c' e =
    stored link_url (link_of a) (λ d. d.url) (λ d. as_link (record d { url = c' })) c c' e
      (λ d. record { reads = refl; same = refl })
write_slot-Stored link_title a c c' e =
    stored link_title (link_of a) (λ d. d.title) (λ d. as_link (record d { title = c' })) c c' e
      (λ d. record { reads = refl; same = refl })
write_slot-Stored custom_enter a c c' e =
    stored custom_enter (custom_of a) (λ d. d.on_enter)
      (λ d. as_custom (record d { on_enter = c' })) c c' e
      (λ d. record { reads = refl; same = refl })
write_slot-Stored custom_exit a c c' e =
    stored custom_exit (custom_of a) (λ d. d.on_exit) (λ d. as_custom (record d { on_exit = c' })) c
      c' e (λ d. record { reads = refl; same = refl })

-- The texts of a node that have a setter.
pub data TextField : Type 0 where
  literal_text fence_info_text url_text title_text on_enter_text on_exit_text : TextField

abbrev pub case_of : TextField → NodeType → Option Slot
case_of literal_text t = literal_case t
case_of fence_info_text t = info_case t
case_of url_text t = url_case t
case_of title_text t = title_case t
case_of on_enter_text t = enter_case t
case_of on_exit_text t = exit_case t

-- An owned chunk with a text and its terminator.
abbrev owned_chunk : Bytes → Chunk
owned_chunk str = record { bytes = some (str ++ 0 ∷ []); len = length str; alloc = true }

drop_all : (n : ℕ) (p : Bytes) → length p ≤ n → drop n p ≡ []
drop_all zero [] h = refl
drop_all (suc n) [] h = refl
drop_all zero (x ∷ p) h = absurd (omega arith)
drop_all (suc n) (x ∷ p) h = drop_all n p (omega arith)

-- A copy over the whole of a memory.
copy_over : (q d : Bytes) → length q ≡ length d → copy_in q 0 d ≡ ok d
copy_over q d e =
    let fits : leb (0 + length d) (length q) ≡ true = ground arith in
    let rest : drop (0 + length d) q ≡ [] = drop_all (0 + length d) q (omega arith) in
    rw (fits, rest) (ap (λ t. ok t) (append-nil d))

-- The result of a setter that stores the chunk `c`.
record Kept (slot : Slot) (node : Node) (c : Chunk) (r : Bool × Option Node) : Type 0 where
  value : As
  result : r ≡ (true, some (record node { value = value }))
  stores : Stored slot c value

-- The end of a setter, behind the copying of the text.
written :
    {slot : Slot} {c : Chunk} {w : Run As} (node : Node)
    → Returns (Stored slot c) w
    → Ends 0 (Kept slot node c) (w >>= λ a. ok (true, some (record node { value = a })))
written node (returns s) = done (record { value = _; result = refl; stores = s })

module _ ⦃libc : Libc⦄ where
  abbrev pub get_text : TextField → Option Node → Run (Option Bytes × Option Node)
  get_text literal_text = get_literal
  get_text fence_info_text = get_fence_info
  get_text url_text = get_url
  get_text title_text = get_title
  get_text on_enter_text = get_on_enter
  get_text on_exit_text = get_on_exit

  abbrev pub set_text : TextField → Option Node → Option Bytes → Run (Bool × Option Node)
  set_text literal_text = set_literal
  set_text fence_info_text = set_fence_info
  set_text url_text = set_url
  set_text title_text = set_title
  set_text on_enter_text = set_on_enter
  set_text on_exit_text = set_on_exit

  get_text-slot :
      (f : TextField) (node : Node) → get_text f (some node) ≡ get_slot (case_of f node.type) node
  unfolding get_literal get_fence_info get_url get_title get_on_enter get_on_exit
  get_text-slot literal_text node = refl
  get_text-slot fence_info_text node = refl
  get_text-slot url_text node = refl
  get_text-slot title_text node = refl
  get_text-slot on_enter_text node = refl
  get_text-slot on_exit_text node = refl

  set_text-slot :
      (f : TextField) (node : Node) (content : Option Bytes)
      → set_text f (some node) content ≡ set_slot (case_of f node.type) node content
  unfolding set_literal set_fence_info set_url set_title set_on_enter set_on_exit
  set_text-slot literal_text node content = refl
  set_text-slot fence_info_text node content = refl
  set_text-slot url_text node content = refl
  set_text-slot title_text node content = refl
  set_text-slot on_enter_text node content = refl
  set_text-slot on_exit_text node content = refl

  get_slot-Stored :
      (slot : Slot) (node : Node) (str : Bytes)
      → Stored slot (owned_chunk str) node.value
      → get_slot (some slot) node ≡ ok (some (str ++ 0 ∷ []), some node)
  unfolding get_slot to_cstr
  get_slot-Stored slot node str s = rw (s.reads, s.same)

  set_cstr-owned :
      (c : Chunk) (str : Bytes)
      → length str < int32_max
      → Ends 0 (λ c'. c' ≡ owned_chunk str) (set_cstr c (some str))
  unfolding set_cstr xcalloc
  set_cstr-owned c str h =
      let short : ltb (length str) int32_max ≡ true = ground arith in
      rw short (elim (Option-cases (libc.calloc (length str + 1))) [
        | inl failed ↦ rw (failed, xcalloc) no_memory
        | inr (q, given) ↦
            let long : length q ≡ length (str ++ 0 ∷ []) = omega (
              arith,
              ap length (libc.calloc_clears (length str + 1) q given),
              length-replicate {A = ℕ} (length str + 1) 0,
              length-append str (0 ∷ []),
            ) in
            rw (given, xcalloc, copy_over q (str ++ 0 ∷ []) long) (done refl)
      ])

  -- The node that a setter leaves has the text.
  abbrev pub Gives :
      (Option Node → Run (Option Bytes × Option Node)) → Bytes → Bool × Option Node → Type 0
  Gives getter str r = (r.0 ≡ true) × (getter r.1 ≡ ok (some (str ++ 0 ∷ []), r.1))

  set_slot-Stored :
      (slot : Slot) (node : Node) (c : Chunk) (str : Bytes)
      → read_slot slot node.value ≡ ok c
      → length str < int32_max
      → Ends 0 (Kept slot node (owned_chunk str)) (set_slot (some slot) node (some str))
  unfolding set_slot
  set_slot-Stored slot node c str e h = rw e (
      bind (set_cstr-owned c str h) (omega arith) λ c' owned.
        rw owned (written node (write_slot-Stored slot node.value c (owned_chunk str) e)))

  -- Each of the six texts of a node that its type and its union have can be set to any C string
  -- shorter than INT32_MAX. The setter reports success, and the getter then returns the string with
  -- its terminator and leaves the node as it is, unless memory runs out in the setter.
  pub get_text-set_text :
      (f : TextField) (node : Node) (slot : Slot) (c : Chunk) (str : Bytes)
      → case_of f node.type ≡ some slot
      → read_slot slot node.value ≡ ok c
      → length str < int32_max
      → Ends 0 (Gives (get_text f) str) (set_text f (some node) (some str))
  get_text-set_text f node slot c str fits e h =
      rw (set_text-slot f node (some str), fits)
        (mono (set_slot-Stored slot node c str e h) (omega arith) λ r x.
          let kept = record node { value = x.value } in
          rw x.result
            (refl, rw (get_text-slot f kept, fits) (get_slot-Stored slot kept str x.stores)))
