-- ===== src/Utf8/RoundTrip.antt =====
-- Decoding what `cmark_utf8proc_encode_char` puts.
use cmark.Prelude.{
  ℕ, ◌+◌, ◌*◌, ◌%◌, ◌/◌, ◌≤◌, ◌<◌, ◌≡◌, ◌≢◌, ◌⊎◌, inl, inr, true, none, some, [], ◌∷◌, ◌++◌, ltb,
  Bool-cases, length, Bytes, low_bits, ok, arith,
}
use cmark.Utf8.{
  utf8class, class_of, is_continuation, charlen, decode, decode2, decode3, decode4, iterate_at,
  iterate, encode,
}
use cmark.Utf8.Lead.{
  continues, class_one, class_two, class_three, class_four, charlen-one, charlen-two, charlen-three,
  charlen-four,
}

-- The Unicode scalar values: every code point but the surrogates.
pub record IsScalar (uc : ℕ) : Type 0 where
  pub in_range : uc < 0x110000
  pub not_surrogate : (uc < 0xD800) ⊎ (0xE000 ≤ uc)

iterate-one : (c : ℕ) (cs : Bytes) → c < 128 → iterate (c ∷ cs) ≡ ok (some (1, c))
unfolding iterate iterate_at decode
iterate-one c cs h = rw (charlen-one c cs (class_one c h))

iterate-two :
    (c d uc : ℕ) (cs : Bytes)
    → class_of c ≡ 2
    → is_continuation d ≡ true
    → low_bits c 5 * 64 + low_bits d 6 ≡ uc
    → 128 ≤ uc
    → iterate (c ∷ d ∷ cs) ≡ ok (some (2, uc))
unfolding iterate iterate_at decode decode2
iterate-two c d uc cs k hd e lo = rw (charlen-two c d cs k hd) (ground arith)

iterate-three :
    (c d e uc : ℕ) (cs : Bytes)
    → class_of c ≡ 3
    → is_continuation d ≡ true
    → is_continuation e ≡ true
    → low_bits c 4 * 4096 + low_bits d 6 * 64 + low_bits e 6 ≡ uc
    → 2048 ≤ uc
    → (uc < 0xD800) ⊎ (0xE000 ≤ uc)
    → iterate (c ∷ d ∷ e ∷ cs) ≡ ok (some (3, uc))
unfolding iterate iterate_at decode decode3
iterate-three c d e uc cs k hd he v lo range = rw (charlen-three c d e cs k hd he) (ground arith)

iterate-four :
    (c d e f uc : ℕ) (cs : Bytes)
    → class_of c ≡ 4
    → is_continuation d ≡ true
    → is_continuation e ≡ true
    → is_continuation f ≡ true
    → low_bits c 3 * 262144 + low_bits d 6 * 4096 + low_bits e 6 * 64 + low_bits f 6 ≡ uc
    → 65536 ≤ uc
    → uc < 0x110000
    → iterate (c ∷ d ∷ e ∷ f ∷ cs) ≡ ok (some (4, uc))
unfolding iterate iterate_at decode decode4
iterate-four c d e f uc cs k hd he hf v lo hi =
    rw (charlen-four c d e f cs k hd he hf) (ground arith)

-- The four forms of an encoding.
pub encode-one : (uc : ℕ) → uc < 128 → encode uc ≡ uc ∷ []
unfolding encode
encode-one uc h = ground arith

pub encode-two :
    (uc : ℕ) → 128 ≤ uc → uc < 2048 → encode uc ≡ (192 + uc / 64) ∷ (128 + uc % 64) ∷ []
unfolding encode
encode-two uc lo hi = ground arith

pub encode-three :
    (uc : ℕ)
    → 2048 ≤ uc
    → uc < 65536
    → uc ≢ 0xFFFF
    → uc ≢ 0xFFFE
    → encode uc ≡ (224 + uc / 4096) ∷ (128 + uc / 64 % 64) ∷ (128 + uc % 64) ∷ []
unfolding encode
encode-three uc lo hi a b = ground arith

pub encode-four :
    (uc : ℕ)
    → 65536 ≤ uc
    → encode uc
      ≡ (240 + uc / 262144) ∷ (128 + uc / 4096 % 64) ∷ (128 + uc / 64 % 64) ∷ (128 + uc % 64) ∷ []
unfolding encode
encode-four uc lo = ground arith

abbrev DecodesTo : ℕ → Bytes → Bytes → Type 0
DecodesTo uc bytes rest = iterate (bytes ++ rest) ≡ ok (some (length bytes, uc))

decodes_three :
    (uc : ℕ) (rest : Bytes)
    → IsScalar uc
    → 2048 ≤ uc
    → uc < 65536
    → DecodesTo uc ((224 + uc / 4096) ∷ (128 + uc / 64 % 64) ∷ (128 + uc % 64) ∷ []) rest
decodes_three uc rest s lo hi =
    iterate-three (224 + uc / 4096) (128 + uc / 64 % 64) (128 + uc % 64) uc rest
      (class_three _ (omega arith) (omega arith)) (continues _ (omega arith) (omega arith))
      (continues _ (omega arith) (omega arith)) (omega arith) lo s.not_surrogate

decodes_four :
    (uc : ℕ) (rest : Bytes)
    → 65536 ≤ uc
    → uc < 0x110000
    → DecodesTo uc
        ((240 + uc / 262144) ∷ (128 + uc / 4096 % 64) ∷ (128 + uc / 64 % 64) ∷ (128 + uc % 64) ∷ [])
        rest
decodes_four uc rest lo hi =
    iterate-four (240 + uc / 262144) (128 + uc / 4096 % 64) (128 + uc / 64 % 64) (128 + uc % 64) uc
      rest (class_four _ (omega arith) (omega arith)) (continues _ (omega arith) (omega arith))
      (continues _ (omega arith) (omega arith)) (continues _ (omega arith) (omega arith))
      (omega arith) lo hi

decodes_two :
    (uc : ℕ) (rest : Bytes)
    → 128 ≤ uc
    → uc < 2048
    → DecodesTo uc ((192 + uc / 64) ∷ (128 + uc % 64) ∷ []) rest
decodes_two uc rest lo hi =
    iterate-two (192 + uc / 64) (128 + uc % 64) uc rest (class_two _ (omega arith) (omega arith))
      (continues _ (omega arith) (omega arith)) (omega arith) lo

-- A scalar value other than 0xFFFE and 0xFFFF that is encoded in front of any bytes is decoded
-- again, with the length of its encoding.
pub iterate-encode :
    (uc : ℕ) (rest : Bytes)
    → IsScalar uc
    → uc ≢ 0xFFFF
    → uc ≢ 0xFFFE
    → iterate (encode uc ++ rest) ≡ ok (some (length (encode uc), uc))
iterate-encode uc rest s a b = elim (Bool-cases (ltb uc 128)) [
  | inl one ↦ rw (encode-one uc (ground arith)) (iterate-one uc rest (ground arith))
  | inr more ↦ elim (Bool-cases (ltb uc 2048)) [
    | inl two ↦
        rw (encode-two uc (ground arith) (ground arith))
          (decodes_two uc rest (ground arith) (ground arith))
    | inr more₂ ↦ elim (Bool-cases (ltb uc 65536)) [
      | inl three ↦
          rw (encode-three uc (ground arith) (ground arith) a b)
            (decodes_three uc rest s (ground arith) (ground arith))
      | inr four ↦
          rw (encode-four uc (ground arith)) (decodes_four uc rest (ground arith) s.in_range)
    ]
  ]
]

-- What cmark_utf8proc_encode_char puts for 0xFFFF or 0xFFFE is rejected by cmark_utf8proc_iterate,
-- whatever bytes follow.
pub encode_noncharacter :
    (uc : ℕ) (rest : Bytes) → (uc ≡ 0xFFFF) ⊎ (uc ≡ 0xFFFE) → iterate (encode uc ++ rest) ≡ ok none
unfolding iterate encode charlen iterate_at class_of utf8class
encode_noncharacter uc rest (inl e) = rw e
encode_noncharacter uc rest (inr e) = rw e
