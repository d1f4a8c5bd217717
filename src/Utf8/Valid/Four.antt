-- ===== src/Utf8/Valid/Four.antt =====
-- Sequences of four bytes.
use cmark.Prelude.{
  ℕ, ◌+◌, ◌*◌, ◌%◌, ◌/◌, ◌≤◌, ◌<◌, ◌≡◌, inl, inr, Bool, true, false, ◌&&◌, ◌||◌, ◌∷◌, ◌==◌, ltb,
  leb, Bool-cases, Bytes, arith,
}
use cmark.Utf8.{
  class_of, is_continuation, charlen, charlen_loop, decode, decode4, iterate_at, iterate, valid,
  valid_at, valid4,
}
use cmark.Utf8.Lead.{charlen-four}
use cmark.Utf8.RoundTrip.{encode-four}
use cmark.Utf8.Valid.{Verdict, accepts, rejects, cont_bounds}

-- What the second byte must be besides a continuation byte, for the lead byte of four.
abbrev bad_second4 : ℕ → ℕ → Bool
bad_second4 c d = c == 0xF0 && ltb d 0x90 || c == 0xF4 && leb 0x90 d || ltb 0xF4 c

module _ (c d e f : ℕ) (cs : Bytes) (k : class_of c ≡ 4) (lo : 240 ≤ c) (hi : c < 248)
    (hd : d < 256) (he : e < 256) (hf : f < 256) where
  four_bad_second : is_continuation d ≡ false → Verdict (c ∷ d ∷ e ∷ f ∷ cs)
  unfolding valid valid_at valid4 iterate iterate_at charlen charlen_loop
  four_bad_second bad =
      rejects 0
        (record { valid_eq = ground arith; iterate_eq = ground arith; within = omega arith })

  four_bad_third :
      is_continuation d ≡ true → is_continuation e ≡ false → Verdict (c ∷ d ∷ e ∷ f ∷ cs)
  unfolding valid valid_at valid4 iterate iterate_at charlen charlen_loop
  four_bad_third gd bad =
      rejects 1
        (record { valid_eq = ground arith; iterate_eq = ground arith; within = omega arith })

  four_bad_fourth :
      is_continuation d ≡ true
      → is_continuation e ≡ true
      → is_continuation f ≡ false
      → Verdict (c ∷ d ∷ e ∷ f ∷ cs)
  unfolding valid valid_at valid4 iterate iterate_at charlen charlen_loop
  four_bad_fourth gd ge bad =
      rejects 2
        (record { valid_eq = ground arith; iterate_eq = ground arith; within = omega arith })

  module _ (gd : is_continuation d ≡ true) (ge : is_continuation e ≡ true)
      (gf : is_continuation f ≡ true) where
    four_excluded : bad_second4 c d ≡ true → Verdict (c ∷ d ∷ e ∷ f ∷ cs)
    unfolding valid valid_at valid4 iterate iterate_at decode decode4
    four_excluded bad = rejects 3 (record {
      valid_eq = ground arith;
      iterate_eq =
          rw (charlen-four c d e f cs k gd ge gf)
            (ground (arith, cont_bounds d hd gd, cont_bounds e he ge, cont_bounds f hf gf));
      within = omega arith;
    })

    four_value : ℕ
    four_value = c % 8 * 262144 + d % 64 * 4096 + e % 64 * 64 + f % 64

    four_bounds : bad_second4 c d ≡ false → (65536 ≤ four_value) × (four_value < 0x110000)
    unfolding four_value
    four_bounds good = ground (arith, cont_bounds d hd gd, cont_bounds e he ge, cont_bounds f hf gf)

    four_good : bad_second4 c d ≡ false → Verdict (c ∷ d ∷ e ∷ f ∷ cs)
    unfolding valid valid_at valid4 iterate iterate_at decode decode4 four_value
    four_good good =
        let bd = cont_bounds d hd gd in
        let be = cont_bounds e he ge in
        let bf = cont_bounds f hf gf in
        let uc = c % 8 * 262144 + d % 64 * 4096 + e % 64 * 64 + f % 64 in
        let range = four_bounds good in
        let c_eq : c ≡ 240 + uc / 262144 = omega (arith, bd, be, bf) in
        let d_eq : d ≡ 128 + uc / 4096 % 64 = omega (arith, bd, be, bf) in
        let e_eq : e ≡ 128 + uc / 64 % 64 = omega (arith, bd, be, bf) in
        let f_eq : f ≡ 128 + uc % 64 = omega (arith, bd, be, bf) in
        accepts 4 uc (record {
          valid_eq = ground arith;
          iterate_eq = rw (charlen-four c d e f cs k gd ge gf) (ground (arith, range));
          some_bytes = omega arith;
          within = omega arith;
          scalar = record { in_range = range.1; not_surrogate = omega (arith, range) };
          spelled = λ a b. rw (encode-four uc range.0) (cc (c_eq, d_eq, e_eq, f_eq));
        })

  pub verdict_four : Verdict (c ∷ d ∷ e ∷ f ∷ cs)
  verdict_four = elim (Bool-cases (is_continuation d)) [
    | inr bad ↦ four_bad_second bad
    | inl gd ↦ elim (Bool-cases (is_continuation e)) [
      | inr bad ↦ four_bad_third gd bad
      | inl ge ↦ elim (Bool-cases (is_continuation f)) [
        | inr bad ↦ four_bad_fourth gd ge bad
        | inl gf ↦ elim (Bool-cases (bad_second4 c d)) [
          | inl bad ↦ four_excluded gd ge gf bad
          | inr good ↦ four_good gd ge gf good
        ]
      ]
    ]
  ]
