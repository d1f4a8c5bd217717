-- ===== src/Houdini/Unescape/Read.antt =====
-- What `houdini_unescape_ent` reads from the references that `houdini_escape_html0` writes.
use cmark.Prelude.{
  ℕ, suc, zero, ◌-◌, ◌<◌, ◌≡◌, refl, sym, ap, ◌∙◌, true, Option, none, some, List, [], ◌∷◌, ◌++◌,
  length, get_elem?, Bytes, Run, ok, Returns, returns, Returns-mono, ◌>>=◌, leb, arith,
}
use cmark.Alloc.{Libc}
use cmark.Buffer.{Strbuf, put, puts}
use cmark.Utf8.{encode, encode_char}
use cmark.Houdini.Unescape.{
  Entity, lookup_entity, is_dec, capped, dec_loop, read_digits, byte_is, sanitized, name_end,
  numeric_ent, named_ent, unescape_ent,
}
use cmark.Houdini.Unescape.Lookup.{IsSorted, NoNul, Looked, before_asym, lookup_entity-Looked}

-- The table has the name with these bytes.
abbrev pub Knows : List Entity → Bytes → Bytes → Type 0
Knows entities name bytes =
    (k : ℕ) × (get_elem? entities k ≡ some (record { name = name; bytes = bytes }))

get-lt :
    (entities : List Entity) (k : ℕ) (e : Entity)
    → get_elem? entities k ≡ some e
    → k < length entities
get-lt [] k e h = cc h
get-lt (x ∷ entities) zero e h = omega arith
get-lt (x ∷ entities) (suc k) e h = omega (arith, get-lt entities k e h)

module _ (entities : List Entity) (sorted : IsSorted entities) (name : Bytes)
    (text : NoNul name) where
  not_ascending :
      (j k : ℕ) (u v : Bytes)
      → get_elem? entities j ≡ some (record { name = name; bytes = u })
      → get_elem? entities k ≡ some (record { name = name; bytes = v })
      → ¬ (j < k)
  not_ascending j k u v at_j at_k less =
      let a = sorted.ascending j k _ _ less at_j at_k in
      let b = before_asym name name a in cc (a, b)

  bytes_of : Entity → Bytes
  bytes_of e = e.bytes

  same_bytes : (u v : Bytes) → Knows entities name u → Knows entities name v → u ≡ v
  same_bytes u v (j, at_j) (k, at_k) =
      let jk : j ≡ k =
        ground (arith, not_ascending j k u v at_j at_k, not_ascending k j v u at_k at_j) in
      let e : some (record { name = name; bytes = u }) ≡ some (record { name = name; bytes = v }) =
        sym at_j ∙ ap (get_elem? entities) jk ∙ at_k in
      cc e

  known :
      (bytes : Bytes)
      → Knows entities name bytes
      → (r : Option Bytes) → Looked entities 0 (length entities - 1) name r
      → r ≡ some bytes
  known bytes k none nowhere =
      absurd (nowhere k.0 _ (omega arith) (omega (arith, get-lt entities k.0 _ k.1)) k.1 refl)
  known bytes k (some v) found = ap (λ t. some t) (same_bytes v bytes found k)

  of_Returns : {r : Run (Option Bytes)} {v : Option Bytes} → Returns (λ x. x ≡ v) r → r ≡ ok v
  of_Returns (returns e) = ap (λ t. ok t) e

  pub lookup_entity-known :
      (bytes : Bytes) → Knows entities name bytes → lookup_entity entities name ≡ ok (some bytes)
  lookup_entity-known bytes k =
      let some_entries : 0 < length entities = omega (arith, get-lt entities k.0 _ k.1) in
      of_Returns
        (Returns-mono (lookup_entity-Looked entities sorted name text some_entries) (known bytes k))

-- A sorted table that has the names `houdini_escape_html0` writes.
pub record IsStandard (entities : List Entity) : Type 0 where
  pub sorted : IsSorted entities
  pub quot : Knows entities (b'q' ∷ b'u' ∷ b'o' ∷ b't' ∷ []) (b'"' ∷ [])
  pub amp : Knows entities (b'a' ∷ b'm' ∷ b'p' ∷ []) (b'&' ∷ [])
  pub lt : Knows entities (b'l' ∷ b't' ∷ []) (b'<' ∷ [])
  pub gt : Knows entities (b'g' ∷ b't' ∷ []) (b'>' ∷ [])

module _ ⦃libc : Libc⦄ (entities : List Entity) where
  -- The bytes behind an ampersand are read as the byte `c`.
  abbrev pub Reads : ℕ → Bytes → Type 0
  Reads c tail =
      (ob : Strbuf) (rest : Bytes)
      → unescape_ent entities ob (tail ++ rest) ≡ (put ob (c ∷ []) >>= λ ob'. ok (length tail, ob'))

  -- Behind three bytes at least the first one decides.
  long_enough : (c d e : ℕ) (cs : Bytes) → leb 3 (length (c ∷ d ∷ e ∷ cs)) ≡ true
  long_enough c d e cs = ground arith

  module _ (std : IsStandard entities) where
    pub read_quot : Reads b'"' (b'q' ∷ b'u' ∷ b'o' ∷ b't' ∷ b';' ∷ [])
    unfolding unescape_ent named_ent name_end byte_is puts
    read_quot ob rest =
        let name : Bytes = b'q' ∷ b'u' ∷ b'o' ∷ b't' ∷ [] in
        rw
          (
            long_enough b'q' b'u' b'o' (b't' ∷ b';' ∷ rest),
            lookup_entity-known entities std.sorted name
                ((λ e. cc e), ((λ e. cc e), ((λ e. cc e), ((λ e. cc e), tt)))) (b'"' ∷ []) std.quot,
          )
          refl

    pub read_amp : Reads b'&' (b'a' ∷ b'm' ∷ b'p' ∷ b';' ∷ [])
    unfolding unescape_ent named_ent name_end byte_is puts
    read_amp ob rest =
        let name : Bytes = b'a' ∷ b'm' ∷ b'p' ∷ [] in
        rw
          (
            long_enough b'a' b'm' b'p' (b';' ∷ rest),
            lookup_entity-known entities std.sorted name
                ((λ e. cc e), ((λ e. cc e), ((λ e. cc e), tt))) (b'&' ∷ []) std.amp,
          )
          refl

    pub read_lt : Reads b'<' (b'l' ∷ b't' ∷ b';' ∷ [])
    unfolding unescape_ent named_ent name_end byte_is puts
    read_lt ob rest =
        let name : Bytes = b'l' ∷ b't' ∷ [] in
        rw
          (
            long_enough b'l' b't' b';' (rest),
            lookup_entity-known entities std.sorted name ((λ e. cc e), ((λ e. cc e), tt))
                (b'<' ∷ []) std.lt,
          )
          refl

    pub read_gt : Reads b'>' (b'g' ∷ b't' ∷ b';' ∷ [])
    unfolding unescape_ent named_ent name_end byte_is puts
    read_gt ob rest =
        let name : Bytes = b'g' ∷ b't' ∷ [] in
        rw
          (
            long_enough b'g' b't' b';' (rest),
            lookup_entity-known entities std.sorted name ((λ e. cc e), ((λ e. cc e), tt))
                (b'>' ∷ []) std.gt,
          )
          refl

    pub read_apos : Reads b'\'' (b'#' ∷ b'3' ∷ b'9' ∷ b';' ∷ [])
    unfolding unescape_ent numeric_ent read_digits dec_loop is_dec capped byte_is sanitized
        encode_char encode
    read_apos ob rest = rw (long_enough b'#' b'3' b'9' (b';' ∷ rest)) refl

    pub read_slash : Reads b'/' (b'#' ∷ b'4' ∷ b'7' ∷ b';' ∷ [])
    unfolding unescape_ent numeric_ent read_digits dec_loop is_dec capped byte_is sanitized
        encode_char encode
    read_slash ob rest = rw (long_enough b'#' b'4' b'7' (b';' ∷ rest)) refl
