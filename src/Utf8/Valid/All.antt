-- ===== src/Utf8/Valid/All.antt =====
-- Every text of bytes, by the class of its first byte.
use cmark.Prelude.{
  ℕ, ◌≤◌, ◌<◌, ◌≡◌, ◌⊎◌, inl, inr, true, false, [], ◌∷◌, ltb, Bool-cases, Bytes, arith,
}
use cmark.Utf8.{class_of}
use cmark.Utf8.Lead.{class_of-range, class_one, class_two, class_three, class_four}
use cmark.Utf8.Valid.{Verdict, verdict_zero, verdict_one, verdict_short, verdict_two}
use cmark.Utf8.Valid.Three.{verdict_three}
use cmark.Utf8.Valid.Four.{verdict_four}

-- Every element is a byte.
abbrev pub AllBytes : Bytes → Type 0
AllBytes [] = Unit {0}
AllBytes (c ∷ cs) = (c < 256) × AllBytes cs

class_none : (c : ℕ) → c < 256 → ltb c 128 ≡ false → (ltb c 192 ≡ true) ⊎ (248 ≤ c) → class_of c ≡ 0
class_none c h a b = ground (arith, class_of-range c)

lead_two : (c : ℕ) (cs : Bytes) → AllBytes cs → 192 ≤ c → c < 224 → Verdict (c ∷ cs)
lead_two c [] h lo hi = verdict_short c 1 [] (class_two c lo hi) (omega arith)
lead_two c (d ∷ cs) h lo hi = verdict_two c d cs (class_two c lo hi) lo hi h.0

lead_three : (c : ℕ) (cs : Bytes) → AllBytes cs → 224 ≤ c → c < 240 → Verdict (c ∷ cs)
lead_three c [] h lo hi = verdict_short c 2 [] (class_three c lo hi) (omega arith)
lead_three c (d ∷ []) h lo hi = verdict_short c 2 (d ∷ []) (class_three c lo hi) (omega arith)
lead_three c (d ∷ e ∷ cs) h lo hi = verdict_three c d e cs (class_three c lo hi) lo hi h.0 h.1.0

lead_four : (c : ℕ) (cs : Bytes) → AllBytes cs → 240 ≤ c → c < 248 → Verdict (c ∷ cs)
lead_four c [] h lo hi = verdict_short c 3 [] (class_four c lo hi) (omega arith)
lead_four c (d ∷ []) h lo hi = verdict_short c 3 (d ∷ []) (class_four c lo hi) (omega arith)
lead_four c (d ∷ e ∷ []) h lo hi = verdict_short c 3 (d ∷ e ∷ []) (class_four c lo hi) (omega arith)
lead_four c (d ∷ e ∷ f ∷ cs) h lo hi =
    verdict_four c d e f cs (class_four c lo hi) lo hi h.0 h.1.0 h.1.1.0

-- For every nonempty text of bytes, utf8proc_valid and cmark_utf8proc_iterate agree. Either both
-- accept a first sequence inside the text, which is a scalar value spelled the way
-- cmark_utf8proc_encode_char does (except for 0xFFFE and 0xFFFF), or both reject it, and the number
-- of bytes to skip is between 1 and the length of the text.
pub verdict : (c : ℕ) (cs : Bytes) → AllBytes (c ∷ cs) → Verdict (c ∷ cs)
verdict c cs h = elim (Bool-cases (ltb c 128)) [
  | inl one ↦ verdict_one c cs (class_one c (ground arith)) (ground arith)
  | inr k₁ ↦ elim (Bool-cases (ltb c 192)) [
    | inl none₁ ↦ verdict_zero c cs (class_none c h.0 k₁ (inl none₁))
    | inr k₂ ↦ elim (Bool-cases (ltb c 224)) [
      | inl two ↦ lead_two c cs h.1 (ground arith) (ground arith)
      | inr k₃ ↦ elim (Bool-cases (ltb c 240)) [
        | inl three ↦ lead_three c cs h.1 (ground arith) (ground arith)
        | inr k₄ ↦ elim (Bool-cases (ltb c 248)) [
          | inl four ↦ lead_four c cs h.1 (ground arith) (ground arith)
          | inr none₂ ↦ verdict_zero c cs (class_none c h.0 k₁ (inr (ground arith)))
        ]
      ]
    ]
  ]
]
