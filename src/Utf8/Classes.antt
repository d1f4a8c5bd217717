-- ===== src/Utf8/Classes.antt =====
-- utf8.c: the code points that are white space, and those that are punctuation. The comparisons with
-- constants are a list of ranges, first and last code point, in the order of the source.
use cmark.Prelude.{
  ℕ, ◌≡◌, refl, Bool, true, false, ◌&&◌, ◌||◌, not, List, [], ◌∷◌, ltb, leb, ◌≤◌, all_below,
  all_below_sound, arith,
}
use cmark.Ctype.{is_punct}

unfoldable pub within : List (ℕ × ℕ) → ℕ → Bool
within [] uc = false
within ((first, last) ∷ ranges) uc =
    let rest = within ranges uc in leb first uc && leb uc last || rest

unfoldable pub space_ranges : List (ℕ × ℕ)
space_ranges =
    (9, 9)
    ∷ (10, 10)
    ∷ (12, 12)
    ∷ (13, 13)
    ∷ (32, 32)
    ∷ (160, 160)
    ∷ (5760, 5760)
    ∷ (8192, 8202)
    ∷ (8239, 8239)
    ∷ (8287, 8287)
    ∷ (12288, 12288)
    ∷ []

unfoldable pub punctuation_ranges : List (ℕ × ℕ)
punctuation_ranges =
    (161, 161)
    ∷ (167, 167)
    ∷ (171, 171)
    ∷ (182, 182)
    ∷ (183, 183)
    ∷ (187, 187)
    ∷ (191, 191)
    ∷ (894, 894)
    ∷ (903, 903)
    ∷ (1370, 1375)
    ∷ (1417, 1417)
    ∷ (1418, 1418)
    ∷ (1470, 1470)
    ∷ (1472, 1472)
    ∷ (1475, 1475)
    ∷ (1478, 1478)
    ∷ (1523, 1523)
    ∷ (1524, 1524)
    ∷ (1545, 1545)
    ∷ (1546, 1546)
    ∷ (1548, 1548)
    ∷ (1549, 1549)
    ∷ (1563, 1563)
    ∷ (1566, 1566)
    ∷ (1567, 1567)
    ∷ (1642, 1645)
    ∷ (1748, 1748)
    ∷ (1792, 1805)
    ∷ (2039, 2041)
    ∷ (2096, 2110)
    ∷ (2142, 2142)
    ∷ (2404, 2404)
    ∷ (2405, 2405)
    ∷ (2416, 2416)
    ∷ (2800, 2800)
    ∷ (3572, 3572)
    ∷ (3663, 3663)
    ∷ (3674, 3674)
    ∷ (3675, 3675)
    ∷ (3844, 3858)
    ∷ (3860, 3860)
    ∷ (3898, 3901)
    ∷ (3973, 3973)
    ∷ (4048, 4052)
    ∷ (4057, 4057)
    ∷ (4058, 4058)
    ∷ (4170, 4175)
    ∷ (4347, 4347)
    ∷ (4960, 4968)
    ∷ (5120, 5120)
    ∷ (5741, 5741)
    ∷ (5742, 5742)
    ∷ (5787, 5787)
    ∷ (5788, 5788)
    ∷ (5867, 5869)
    ∷ (5941, 5941)
    ∷ (5942, 5942)
    ∷ (6100, 6102)
    ∷ (6104, 6106)
    ∷ (6144, 6154)
    ∷ (6468, 6468)
    ∷ (6469, 6469)
    ∷ (6686, 6686)
    ∷ (6687, 6687)
    ∷ (6816, 6822)
    ∷ (6824, 6829)
    ∷ (7002, 7008)
    ∷ (7164, 7167)
    ∷ (7227, 7231)
    ∷ (7294, 7294)
    ∷ (7295, 7295)
    ∷ (7360, 7367)
    ∷ (7379, 7379)
    ∷ (8208, 8231)
    ∷ (8240, 8259)
    ∷ (8261, 8273)
    ∷ (8275, 8286)
    ∷ (8317, 8317)
    ∷ (8318, 8318)
    ∷ (8333, 8333)
    ∷ (8334, 8334)
    ∷ (8968, 8971)
    ∷ (9001, 9001)
    ∷ (9002, 9002)
    ∷ (10088, 10101)
    ∷ (10181, 10181)
    ∷ (10182, 10182)
    ∷ (10214, 10223)
    ∷ (10627, 10648)
    ∷ (10712, 10715)
    ∷ (10748, 10748)
    ∷ (10749, 10749)
    ∷ (11513, 11516)
    ∷ (11518, 11518)
    ∷ (11519, 11519)
    ∷ (11632, 11632)
    ∷ (11776, 11822)
    ∷ (11824, 11842)
    ∷ (12289, 12291)
    ∷ (12296, 12305)
    ∷ (12308, 12319)
    ∷ (12336, 12336)
    ∷ (12349, 12349)
    ∷ (12448, 12448)
    ∷ (12539, 12539)
    ∷ (42238, 42238)
    ∷ (42239, 42239)
    ∷ (42509, 42511)
    ∷ (42611, 42611)
    ∷ (42622, 42622)
    ∷ (42738, 42743)
    ∷ (43124, 43127)
    ∷ (43214, 43214)
    ∷ (43215, 43215)
    ∷ (43256, 43258)
    ∷ (43310, 43310)
    ∷ (43311, 43311)
    ∷ (43359, 43359)
    ∷ (43457, 43469)
    ∷ (43486, 43486)
    ∷ (43487, 43487)
    ∷ (43612, 43615)
    ∷ (43742, 43742)
    ∷ (43743, 43743)
    ∷ (43760, 43760)
    ∷ (43761, 43761)
    ∷ (44011, 44011)
    ∷ (64830, 64830)
    ∷ (64831, 64831)
    ∷ (65040, 65049)
    ∷ (65072, 65106)
    ∷ (65108, 65121)
    ∷ (65123, 65123)
    ∷ (65128, 65128)
    ∷ (65130, 65130)
    ∷ (65131, 65131)
    ∷ (65281, 65283)
    ∷ (65285, 65290)
    ∷ (65292, 65295)
    ∷ (65306, 65306)
    ∷ (65307, 65307)
    ∷ (65311, 65311)
    ∷ (65312, 65312)
    ∷ (65339, 65341)
    ∷ (65343, 65343)
    ∷ (65371, 65371)
    ∷ (65373, 65373)
    ∷ (65375, 65381)
    ∷ (65792, 65794)
    ∷ (66463, 66463)
    ∷ (66512, 66512)
    ∷ (66927, 66927)
    ∷ (67671, 67671)
    ∷ (67871, 67871)
    ∷ (67903, 67903)
    ∷ (68176, 68184)
    ∷ (68223, 68223)
    ∷ (68336, 68342)
    ∷ (68409, 68415)
    ∷ (68505, 68508)
    ∷ (69703, 69709)
    ∷ (69819, 69819)
    ∷ (69820, 69820)
    ∷ (69822, 69825)
    ∷ (69952, 69955)
    ∷ (70004, 70004)
    ∷ (70005, 70005)
    ∷ (70085, 70088)
    ∷ (70093, 70093)
    ∷ (70200, 70205)
    ∷ (70854, 70854)
    ∷ (71105, 71113)
    ∷ (71233, 71235)
    ∷ (74864, 74868)
    ∷ (92782, 92782)
    ∷ (92783, 92783)
    ∷ (92917, 92917)
    ∷ (92983, 92987)
    ∷ (92996, 92996)
    ∷ (113823, 113823)
    ∷ []

-- `cmark_utf8proc_is_space`
unfoldable pub is_unicode_space : ℕ → Bool
is_unicode_space uc = within space_ranges uc

-- `cmark_utf8proc_is_punctuation`
unfoldable pub is_punctuation : ℕ → Bool
is_punctuation uc = ltb uc 128 && is_punct uc || within punctuation_ranges uc

-- Whether all ranges lie apart from one range, or from all of a list.
apart_from : ℕ → ℕ → List (ℕ × ℕ) → Bool
apart_from a b [] = true
apart_from a b ((first, last) ∷ ranges) = (ltb last a || ltb b first) && apart_from a b ranges

all_apart : List (ℕ × ℕ) → List (ℕ × ℕ) → Bool
all_apart [] ranges = true
all_apart ((a, b) ∷ others) ranges = apart_from a b ranges && all_apart others ranges

apart_from_lem :
    (a b uc : ℕ) (ranges : List (ℕ × ℕ))
    → apart_from a b ranges ≡ true
    → a ≤ uc
    → uc ≤ b
    → within ranges uc ≡ false
unfolding apart_from within
apart_from_lem a b uc [] h lo hi = refl
apart_from_lem a b uc ((first, last) ∷ ranges) h lo hi =
    ground (arith, apart_from_lem a b uc ranges)

all_apart_lem :
    (others ranges : List (ℕ × ℕ)) (uc : ℕ)
    → all_apart others ranges ≡ true
    → within others uc ≡ true
    → within ranges uc ≡ false
unfolding all_apart within
all_apart_lem [] ranges uc h e = cc e
all_apart_lem ((a, b) ∷ others) ranges uc h e =
    ground (arith, apart_from_lem a b uc ranges, all_apart_lem others ranges uc)

tables_apart : all_apart space_ranges punctuation_ranges ≡ true
unfolding all_apart apart_from space_ranges punctuation_ranges
tables_apart = refl

ascii_apart : all_below 128 (λ uc. not (is_punct uc && within space_ranges uc)) ≡ true
unfolding all_below is_punct within space_ranges
ascii_apart = refl

-- A code point that cmark_utf8proc_is_space takes for white space is no punctuation for
-- cmark_utf8proc_is_punctuation.
pub is_unicode_space-is_punctuation :
    (uc : ℕ) → is_unicode_space uc ≡ true → is_punctuation uc ≡ false
unfolding is_unicode_space is_punctuation
is_unicode_space-is_punctuation uc h = ground (
  arith,
  all_apart_lem space_ranges punctuation_ranges uc tables_apart h,
  all_below_sound 128 (λ uc. not (is_punct uc && within space_ranges uc)) uc ascii_apart,
)
