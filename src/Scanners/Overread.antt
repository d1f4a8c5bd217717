-- ===== src/Scanners/Overread.antt =====
-- The scanners for the end of an HTML block go on until a line feed, also past a terminator.
use cmark.Prelude.{ℕ, ◌≡◌, refl, inl, inr, true, false, ◌==◌, [], ◌∷◌, Bool-cases, Bytes, fault}
use cmark.Scanners.{
  Regex, eps, seq, alt, star, is_void, is_eps, either, chain, deriv, dead, can_go, longest, Rule,
  pick, run_scanner,
}
use cmark.Scanners.Rules.{any_char}
use cmark.Scanners.Table.{
  scan_html_block_end_1, scan_html_block_end_2, scan_html_block_end_3, scan_html_block_end_4,
  scan_html_block_end_5,
}

-- Patterns that begin with `.*`, and what is left of them behind other bytes.
data Loops : Regex → Type 0 where
  here : (b : Regex) → dead b ≡ false → Loops (seq (star any_char) b)
  before : {r : Regex} (b : Regex) → Loops r → dead b ≡ false → Loops (seq r b)
  choice : {r : Regex} (b : Regex) → Loops r → Loops (alt r b)

Loops-solid : {r : Regex} → Loops r → (is_void r ≡ false) × (is_eps r ≡ false)
unfolding is_void is_eps
Loops-solid (here b h) = (refl, refl)
Loops-solid (before b l h) = (refl, refl)
Loops-solid (choice b l) = (refl, refl)

Loops-alive : {r : Regex} → Loops r → dead r ≡ false
unfolding dead
Loops-alive (here b h) = h
Loops-alive (before b l h) = rw (Loops-alive l, h)
Loops-alive (choice b l) = rw (Loops-alive l)

Loops-can_go : {r : Regex} → Loops r → can_go r ≡ true
unfolding can_go any_char
Loops-can_go (here b h) = rw h
Loops-can_go (before b l h) = rw (Loops-can_go l, h)
Loops-can_go (choice b l) = rw (Loops-can_go l)

Loops-either : {r : Regex} (b : Regex) → Loops r → Loops (either r b)
unfolding either
Loops-either b l =
    rw ((Loops-solid l).0)
      (elim (Bool-cases (is_void b)) [ inl h ↦ rw h l | inr h ↦ rw h (choice b l) ])

Loops-chain : {r : Regex} (b : Regex) → Loops r → dead b ≡ false → Loops (chain r b)
unfolding chain
Loops-chain b l h = let (v, e) = Loops-solid l in rw (v, e) (before b l h)

Loops-deriv : (c : ℕ) {r : Regex} → (c == 10) ≡ false → Loops r → Loops (deriv c r)
unfolding deriv any_char
Loops-deriv c other (here b h) = rw other (Loops-either _ (here b h))
Loops-deriv c other (before b l h) = Loops-either _ (Loops-chain b (Loops-deriv c other l) h)
Loops-deriv c other (choice b l) = Loops-either _ (Loops-deriv c other l)

abbrev pub NoLineFeed : Bytes → Type 0
NoLineFeed [] = Unit {0}
NoLineFeed (c ∷ m) = ((c == 10) ≡ false) × NoLineFeed m

longest-fault : {r : Regex} (m : Bytes) → NoLineFeed m → Loops r → longest r m ≡ fault
unfolding longest
longest-fault [] h l = rw (Loops-can_go l)
longest-fault (c ∷ m) h l = rw (Loops-can_go l, longest-fault m h.1 (Loops-deriv c h.0 l))

pick-fault :
    (r : Rule) (m : Bytes)
    → NoLineFeed m
    → Loops r.pattern
    → r.context ≡ eps
    → run_scanner (r ∷ []) m ≡ fault
unfolding run_scanner pick
pick-fault r m h l e =
    let alive : dead r.context ≡ false = rw e (unfold dead in refl) in
    rw (longest-fault m h (before r.context l alive))

-- The five scanners for the end of an HTML block read past the end of any memory that has no line
-- feed from the scanned position on, be there a terminator in it or not.
pub scan_html_block_end-fault :
    (m : Bytes)
    → NoLineFeed m
    → (run_scanner scan_html_block_end_1 m ≡ fault)
      × (run_scanner scan_html_block_end_2 m ≡ fault)
      × (run_scanner scan_html_block_end_3 m ≡ fault)
      × (run_scanner scan_html_block_end_4 m ≡ fault)
      × (run_scanner scan_html_block_end_5 m ≡ fault)
unfolding scan_html_block_end_1 scan_html_block_end_2 scan_html_block_end_3 scan_html_block_end_4
    scan_html_block_end_5 dead
scan_html_block_end-fault m h = (
  pick-fault _ m h (here _ refl) refl,
  pick-fault _ m h (here _ refl) refl,
  pick-fault _ m h (here _ refl) refl,
  pick-fault _ m h (here _ refl) refl,
  pick-fault _ m h (here _ refl) refl,
)
