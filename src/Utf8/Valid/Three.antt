-- ===== src/Utf8/Valid/Three.antt =====
-- Sequences of three bytes.
use cmark.Prelude.{
  ℕ, ◌+◌, ◌*◌, ◌%◌, ◌/◌, ◌≤◌, ◌<◌, ◌≡◌, ◌⊎◌, inl, inr, Bool, true, false, ◌&&◌, ◌||◌, ◌∷◌, ◌==◌,
  ltb, leb, Bool-cases, Bytes, arith,
}
use cmark.Utf8.{
  class_of, is_continuation, charlen, charlen_loop, decode, decode3, iterate_at, iterate, valid,
  valid_at, valid3,
}
use cmark.Utf8.Lead.{charlen-three}
use cmark.Utf8.RoundTrip.{encode-three}
use cmark.Utf8.Valid.{Verdict, accepts, rejects, cont_bounds}

-- What the second byte must be besides a continuation byte, for the lead byte of three.
abbrev bad_second3 : ℕ → ℕ → Bool
bad_second3 c d = c == 0xE0 && ltb d 0xA0 || c == 0xED && leb 0xA0 d

module _ (c d e : ℕ) (cs : Bytes) (k : class_of c ≡ 3) (lo : 224 ≤ c) (hi : c < 240) (hd : d < 256)
    (he : e < 256) where
  three_bad_second : is_continuation d ≡ false → Verdict (c ∷ d ∷ e ∷ cs)
  unfolding valid valid_at valid3 iterate iterate_at charlen charlen_loop
  three_bad_second bad =
      rejects 0
        (record { valid_eq = ground arith; iterate_eq = ground arith; within = omega arith })

  three_bad_third : is_continuation d ≡ true → is_continuation e ≡ false → Verdict (c ∷ d ∷ e ∷ cs)
  unfolding valid valid_at valid3 iterate iterate_at charlen charlen_loop
  three_bad_third good bad =
      rejects 1
        (record { valid_eq = ground arith; iterate_eq = ground arith; within = omega arith })

  module _ (gd : is_continuation d ≡ true) (ge : is_continuation e ≡ true) where
    three_excluded : bad_second3 c d ≡ true → Verdict (c ∷ d ∷ e ∷ cs)
    unfolding valid valid_at valid3 iterate iterate_at decode decode3
    three_excluded bad = rejects 2 (record {
      valid_eq = ground arith;
      iterate_eq =
          rw (charlen-three c d e cs k gd ge)
            (ground (arith, cont_bounds d hd gd, cont_bounds e he ge));
      within = omega arith;
    })

    three_value : ℕ
    three_value = c % 16 * 4096 + d % 64 * 64 + e % 64

    three_bounds :
        bad_second3 c d ≡ false
        → (2048 ≤ three_value)
          × (three_value < 65536)
          × ((three_value < 0xD800) ⊎ (0xE000 ≤ three_value))
    unfolding three_value
    three_bounds good = ground (arith, cont_bounds d hd gd, cont_bounds e he ge)

    three_good : bad_second3 c d ≡ false → Verdict (c ∷ d ∷ e ∷ cs)
    unfolding valid valid_at valid3 iterate iterate_at decode decode3 three_value
    three_good good =
        let bd = cont_bounds d hd gd in
        let be = cont_bounds e he ge in
        let uc = c % 16 * 4096 + d % 64 * 64 + e % 64 in
        let range = three_bounds good in
        let c_eq : c ≡ 224 + uc / 4096 = omega (arith, bd, be) in
        let d_eq : d ≡ 128 + uc / 64 % 64 = omega (arith, bd, be) in
        let e_eq : e ≡ 128 + uc % 64 = omega (arith, bd, be) in
        accepts 3 uc (record {
          valid_eq = ground arith;
          iterate_eq = rw (charlen-three c d e cs k gd ge) (ground (arith, range));
          some_bytes = omega arith;
          within = omega arith;
          scalar = record { in_range = omega (arith, range); not_surrogate = range.2 };
          spelled = λ a b. rw (encode-three uc range.0 range.1 a b) (cc (c_eq, d_eq, e_eq));
        })

  pub verdict_three : Verdict (c ∷ d ∷ e ∷ cs)
  verdict_three = elim (Bool-cases (is_continuation d)) [
    | inr bad ↦ three_bad_second bad
    | inl gd ↦ elim (Bool-cases (is_continuation e)) [
      | inr bad ↦ three_bad_third gd bad
      | inl ge ↦ elim (Bool-cases (bad_second3 c d)) [
        | inl bad ↦ three_excluded gd ge bad
        | inr good ↦ three_good gd ge good
      ]
    ]
  ]
