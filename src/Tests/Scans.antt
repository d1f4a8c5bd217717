-- ===== src/Tests/Scans.antt =====
-- The scanners on concrete texts.
use cmark.Prelude.{◌≡◌, refl, true, [], ◌∷◌, ◌++◌, ok, fault, drop, arith}
use cmark.Scanners.{Match, scan_at, run_scanner, result}
use cmark.Scanners.InBounds.{no_nul}
use cmark.Scanners.Picked.{AllRules, NulFree, IsPicked, part_of, scan_at-IsPicked}
use cmark.Scanners.Overread.{scan_html_block_end-fault}
use cmark.Scanners.Table.{
  scan_scheme, scan_autolink_uri, scan_autolink_email, scan_html_tag, scan_html_block_start,
  scan_html_block_start_7, scan_html_block_end_1, scan_html_block_end_2, scan_html_block_end_3,
  scan_html_block_end_4, scan_html_block_end_5, scan_link_title, scan_spacechars,
  scan_atx_heading_start, scan_setext_heading_line, scan_thematic_break, scan_open_code_fence,
  scan_close_code_fence, scan_entity, scan_dangerous_url,
}
use cmark.Tests.{codes}

title : run_scanner scan_link_title (codes "\"a\\\"b\" c" ++ 0 ∷ []) ≡ ok 6
unfolding run_scanner scan_link_title
title = refl

uri : run_scanner scan_autolink_uri (codes "http://x.org/> y" ++ 0 ∷ []) ≡ ok 14
unfolding run_scanner scan_autolink_uri
uri = refl

mail : run_scanner scan_autolink_email (codes "me@x.org> y" ++ 0 ∷ []) ≡ ok 9
unfolding run_scanner scan_autolink_email
mail = refl

tag : run_scanner scan_html_tag (codes "a href='x' b>c" ++ 0 ∷ []) ≡ ok 13
unfolding run_scanner scan_html_tag
tag = refl

comment : run_scanner scan_html_tag (codes "!-- a - b -->c" ++ 0 ∷ []) ≡ ok 13
unfolding run_scanner scan_html_tag
comment = refl

block_start : run_scanner scan_html_block_start (codes "<TABLE>" ++ 10 ∷ 0 ∷ []) ≡ ok 6
unfolding run_scanner scan_html_block_start
block_start = refl

block_start_7 : run_scanner scan_html_block_start_7 (codes "<x y=z> " ++ 10 ∷ 0 ∷ []) ≡ ok 7
unfolding run_scanner scan_html_block_start_7
block_start_7 = refl

block_end : run_scanner scan_html_block_end_2 (codes "b --> c" ++ 10 ∷ 0 ∷ []) ≡ ok 5
unfolding run_scanner scan_html_block_end_2
block_end = refl

heading_start : run_scanner scan_atx_heading_start (codes "### a" ++ 0 ∷ []) ≡ ok 4
unfolding run_scanner scan_atx_heading_start
heading_start = refl

underline : run_scanner scan_setext_heading_line (codes "---  " ++ 10 ∷ 0 ∷ []) ≡ ok 2
unfolding run_scanner scan_setext_heading_line
underline = refl

break : run_scanner scan_thematic_break (codes "* * *" ++ 10 ∷ 0 ∷ []) ≡ ok 6
unfolding run_scanner scan_thematic_break
break = refl

open_fence : run_scanner scan_open_code_fence (codes "````c" ++ 10 ∷ 0 ∷ []) ≡ ok 4
unfolding run_scanner scan_open_code_fence
open_fence = refl

entity : run_scanner scan_entity (codes "&#x1F4;" ++ 0 ∷ []) ≡ ok 7
unfolding run_scanner scan_entity
entity = refl

picture : run_scanner scan_dangerous_url (codes "data:image/PNG" ++ 0 ∷ []) ≡ ok 0
unfolding run_scanner scan_dangerous_url
picture = refl

script : run_scanner scan_dangerous_url (codes "JavaScript:x" ++ 0 ∷ []) ≡ ok 11
unfolding run_scanner scan_dangerous_url
script = refl

-- The other scanners than those for the end of an HTML block stop at a terminator.
scanners-NulFree :
    AllRules NulFree scan_scheme
    × AllRules NulFree scan_autolink_uri
    × AllRules NulFree scan_autolink_email
    × AllRules NulFree scan_html_tag
    × AllRules NulFree scan_html_block_start
    × AllRules NulFree scan_html_block_start_7
    × AllRules NulFree scan_link_title
    × AllRules NulFree scan_spacechars
    × AllRules NulFree scan_atx_heading_start
    × AllRules NulFree scan_setext_heading_line
    × AllRules NulFree scan_thematic_break
    × AllRules NulFree scan_open_code_fence
    × AllRules NulFree scan_close_code_fence
    × AllRules NulFree scan_entity
    × AllRules NulFree scan_dangerous_url
unfolding no_nul scan_scheme scan_autolink_uri scan_autolink_email scan_html_tag
    scan_html_block_start scan_html_block_start_7 scan_link_title scan_spacechars
    scan_atx_heading_start scan_setext_heading_line scan_thematic_break scan_open_code_fence
    scan_close_code_fence scan_entity scan_dangerous_url
scanners-NulFree = (
  ((refl, refl), tt),
  ((refl, refl), tt),
  ((refl, refl), tt),
  ((refl, refl), tt),
  (
    (refl, refl),
    ((refl, refl), ((refl, refl), ((refl, refl), ((refl, refl), ((refl, refl), tt))))),
  ),
  ((refl, refl), tt),
  ((refl, refl), ((refl, refl), ((refl, refl), tt))),
  ((refl, refl), tt),
  ((refl, refl), tt),
  ((refl, refl), ((refl, refl), tt)),
  ((refl, refl), ((refl, refl), ((refl, refl), tt))),
  ((refl, refl), ((refl, refl), tt)),
  ((refl, refl), ((refl, refl), tt)),
  ((refl, refl), tt),
  ((refl, refl), ((refl, refl), tt)),
)

scan_at-IsPicked_example :
    (o : Match) × IsPicked scan_spacechars (drop 1 (codes "a  ") ++ 0 ∷ []) o
    × (scan_at scan_spacechars (part_of (codes "a  ") 10 [] true) 1
        ≡ ok (result o, part_of (codes "a  ") 10 [] true))
scan_at-IsPicked_example =
    scan_at-IsPicked scan_spacechars (codes "a  ") [] 10 1 true (scanners-NulFree.7) (omega arith)

scan_html_block_end-fault_example :
    (run_scanner scan_html_block_end_1 (codes "<a>" ++ 13 ∷ 0 ∷ []) ≡ fault)
    × (run_scanner scan_html_block_end_2 (codes "<a>" ++ 13 ∷ 0 ∷ []) ≡ fault)
    × (run_scanner scan_html_block_end_3 (codes "<a>" ++ 13 ∷ 0 ∷ []) ≡ fault)
    × (run_scanner scan_html_block_end_4 (codes "<a>" ++ 13 ∷ 0 ∷ []) ≡ fault)
    × (run_scanner scan_html_block_end_5 (codes "<a>" ++ 13 ∷ 0 ∷ []) ≡ fault)
scan_html_block_end-fault_example =
    scan_html_block_end-fault (codes "<a>" ++ 13 ∷ 0 ∷ [])
      (refl, (refl, (refl, (refl, (refl, tt)))))
