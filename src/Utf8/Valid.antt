-- ===== src/Utf8/Valid.antt =====
-- `utf8proc_valid` and `cmark_utf8proc_iterate` are two readings of RFC 3629: they accept the same
-- sequences, with the same length.
use cmark.Prelude.{
  ℕ, zero, suc, ◌+◌, ◌*◌, ◌%◌, ◌/◌, ◌^◌, ◌≤◌, ◌<◌, ◌≡◌, ◌≢◌, ◌⊎◌, inl, inr, refl, sym, ap, ◌∙◌,
  Bool, true, false, ◌&&◌, ◌||◌, not, none, some, [], ◌∷◌, ◌==◌, ltb, leb, if◌then◌else◌,
  Bool-cases, length, take, Bytes, load, low_bits, shr, Run, ok, ◌>>=◌, arith,
}
use cmark.Prelude.Int.{pos, negsuc, neg}
use cmark.Utf8.{
  class_of, is_continuation, charlen, charlen_loop, decode, decode2, decode3, decode4, iterate_at,
  iterate, encode, valid, valid_at, valid2, valid3, valid4,
}
use cmark.Utf8.Lead.{
  class_of-range, is_continuation-range, charlen-one, charlen-two, charlen-three, charlen-four,
}
use cmark.Utf8.RoundTrip.{IsScalar, encode-one, encode-two, encode-three, encode-four}
pub mod Three
pub mod Four
pub mod All

-- Both functions accept the first `n` bytes of `str`, which encode the scalar value `uc`.
pub record Accepts (str : Bytes) (n uc : ℕ) : Type 0 where
  pub valid_eq : valid str ≡ ok (pos n)
  pub iterate_eq : iterate str ≡ ok (some (n, uc))
  pub some_bytes : 0 < n
  pub within : n ≤ length str
  pub scalar : IsScalar uc
  pub spelled : uc ≢ 0xFFFF → uc ≢ 0xFFFE → take n str ≡ encode uc

-- Both reject `str`; `utf8proc_valid` returns `-(m + 1)`, the bytes to skip.
pub record Rejects (str : Bytes) (m : ℕ) : Type 0 where
  pub valid_eq : valid str ≡ ok (negsuc m)
  pub iterate_eq : iterate str ≡ ok none
  pub within : m < length str

pub data Verdict (str : Bytes) : Type 0 where
  accepts : (n uc : ℕ) → Accepts str n uc → Verdict str
  rejects : (m : ℕ) → Rejects str m → Verdict str

-- The range of a continuation byte.
pub cont_bounds : (d : ℕ) → d < 256 → is_continuation d ≡ true → (128 ≤ d) × (d < 192)
cont_bounds d h e = ground (arith, is_continuation-range d)

pub verdict_one : (c : ℕ) (cs : Bytes) → class_of c ≡ 1 → c < 128 → Verdict (c ∷ cs)
unfolding valid valid_at iterate iterate_at decode
verdict_one c cs k h = accepts 1 c (record {
  valid_eq = rw k (ground arith);
  iterate_eq = rw (charlen-one c cs k);
  some_bytes = omega arith;
  within = omega arith;
  scalar = record { in_range = omega arith; not_surrogate = omega arith };
  spelled = λ a b. sym (encode-one c h);
})

pub verdict_zero : (c : ℕ) (cs : Bytes) → class_of c ≡ 0 → Verdict (c ∷ cs)
unfolding valid iterate iterate_at charlen
verdict_zero c cs k =
    rejects 0 (record { valid_eq = rw k; iterate_eq = rw k; within = omega arith })

-- Sequences that end too early.
pub verdict_short : (c n : ℕ) (cs : Bytes) → class_of c ≡ suc n → length cs < n → Verdict (c ∷ cs)
unfolding valid iterate iterate_at charlen
verdict_short c n cs k h = rejects (length cs) (record {
  valid_eq = rw k (ground arith);
  iterate_eq = rw k (ground arith);
  within = omega arith;
})

module _ (c d : ℕ) (cs : Bytes) (k : class_of c ≡ 2) (lo : 192 ≤ c) (hi : c < 224)
    (hd : d < 256) where
  two_bad : is_continuation d ≡ false → Verdict (c ∷ d ∷ cs)
  unfolding valid valid_at valid2 iterate iterate_at charlen charlen_loop
  two_bad bad =
      rejects 0
        (record { valid_eq = ground arith; iterate_eq = ground arith; within = omega arith })

  two_overlong : is_continuation d ≡ true → c < 0xC2 → Verdict (c ∷ d ∷ cs)
  unfolding valid valid_at valid2 iterate iterate_at decode decode2
  two_overlong good short = rejects 1 (record {
    valid_eq = ground arith;
    iterate_eq = rw (charlen-two c d cs k good) (ground (arith, cont_bounds d hd good));
    within = omega arith;
  })

  two_good : is_continuation d ≡ true → 0xC2 ≤ c → Verdict (c ∷ d ∷ cs)
  unfolding valid valid_at valid2 iterate iterate_at decode decode2
  two_good good long =
      let bd = cont_bounds d hd good in
      let uc = c % 32 * 64 + d % 64 in
      let c_eq : c ≡ 192 + uc / 64 = omega (arith, bd) in
      let d_eq : d ≡ 128 + uc % 64 = omega (arith, bd) in
      accepts 2 uc (record {
        valid_eq = ground arith;
        iterate_eq = rw (charlen-two c d cs k good) (ground (arith, bd));
        some_bytes = omega arith;
        within = omega arith;
        scalar = record { in_range = omega (arith, bd); not_surrogate = omega (arith, bd) };
        spelled =
            λ a b. rw (encode-two uc (omega (arith, bd)) (omega (arith, bd))) (cc (c_eq, d_eq));
      })

  pub verdict_two : Verdict (c ∷ d ∷ cs)
  verdict_two = elim (Bool-cases (is_continuation d)) [
    | inr bad ↦ two_bad bad
    | inl good ↦ elim (Bool-cases (ltb c 0xC2)) [
      | inl short ↦ two_overlong good (ground arith)
      | inr long ↦ two_good good (ground arith)
    ]
  ]
