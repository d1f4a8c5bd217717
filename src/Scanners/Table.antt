-- ===== src/Scanners/Table.antt =====
-- The scanners of scanners.re, each as its rules but for the last, `.? { return 0; }`.
use cmark.Prelude.{ℕ, not, ◌&&◌, ◌||◌, List, [], ◌∷◌, ◌==◌, ltb, codes}
use cmark.Scanners.{Regex, chars, seq, alt, star, Rule, taken, constant}
use cmark.Scanners.Patterns.{
  between, one_of, letter, digit, alphanumeric, is_hex, fold, byte, other_than, caseless, words,
  optional, plus, up_to, times, sequence, rule, before,
}
use cmark.Scanners.Rules.{
  spacechar, blank, line_end, any_char, escaped_char, block_tag_name, open_tag, close_tag, html_tag,
  scheme,
}

unfoldable pub scan_scheme : List Rule
unfolding scheme
scan_scheme = rule (seq scheme (byte b':')) taken ∷ []

unfoldable pub scan_autolink_uri : List Rule
unfolding scheme
scan_autolink_uri =
    let body = chars (λ c. ltb 32 c && not (c == b'<' || c == b'>')) in
    rule (sequence (scheme ∷ byte b':' ∷ star body ∷ byte b'>' ∷ [])) taken ∷ []

-- `[a-zA-Z0-9]([a-zA-Z0-9-]{0,61}[a-zA-Z0-9])?`
unfoldable pub mail_label : Regex
unfolding alphanumeric digit letter between
mail_label =
    let inner = chars (λ c. alphanumeric c || c == b'-') in
    seq (chars alphanumeric) (optional (seq (up_to 61 inner) (chars alphanumeric)))

unfoldable pub scan_autolink_email : List Rule
unfolding mail_label alphanumeric digit letter between one_of
scan_autolink_email =
    let local = chars (λ c. alphanumeric c || one_of (codes ".!#$%&'*+/=?^_`{|}~-") c) in
    let domain =
      sequence (byte b'@' ∷ mail_label ∷ star (seq (byte b'.') mail_label) ∷ byte b'>' ∷ []) in
    rule (seq (plus local) domain) taken ∷ []

unfoldable pub scan_html_tag : List Rule
unfolding html_tag
scan_html_tag = rule html_tag taken ∷ []

unfoldable pub script_pre_style : Regex
unfolding fold between
script_pre_style = words ("script" ∷ "pre" ∷ "style" ∷ [])

unfoldable pub scan_html_block_start : List Rule
unfolding script_pre_style spacechar block_tag_name fold between
scan_html_block_start =
    rule (sequence (byte b'<' ∷ script_pre_style ∷ alt spacechar (byte b'>') ∷ [])) (constant 1)
    ∷ rule (caseless (codes "<!--")) (constant 2)
    ∷ rule (caseless (codes "<?")) (constant 3)
    ∷ rule (seq (caseless (codes "<!")) (chars (between b'A' b'Z'))) (constant 4)
    ∷ rule (caseless (codes "<![cdata[")) (constant 5)
    ∷ rule
        (sequence (
          byte b'<'
          ∷ optional (byte b'/')
          ∷ block_tag_name
          ∷ alt spacechar (seq (optional (byte b'/')) (byte b'>'))
          ∷ []))
        (constant 6)
    ∷ []

unfoldable pub scan_html_block_start_7 : List Rule
unfolding open_tag close_tag line_end one_of
scan_html_block_start_7 =
    let spaces = star (chars (one_of (codes "\t\n\u{c} "))) in
    rule (sequence (byte b'<' ∷ alt open_tag close_tag ∷ spaces ∷ line_end ∷ [])) (constant 7) ∷ []

unfoldable pub scan_html_block_end_1 : List Rule
unfolding any_char script_pre_style
scan_html_block_end_1 =
    rule (sequence (star any_char ∷ byte b'<' ∷ byte b'/' ∷ script_pre_style ∷ byte b'>' ∷ []))
      taken
    ∷ []

unfoldable pub scan_html_block_end_2 : List Rule
unfolding any_char fold between
scan_html_block_end_2 = rule (seq (star any_char) (caseless (codes "-->"))) taken ∷ []

unfoldable pub scan_html_block_end_3 : List Rule
unfolding any_char fold between
scan_html_block_end_3 = rule (seq (star any_char) (caseless (codes "?>"))) taken ∷ []

unfoldable pub scan_html_block_end_4 : List Rule
unfolding any_char fold between
scan_html_block_end_4 = rule (seq (star any_char) (caseless (codes ">"))) taken ∷ []

unfoldable pub scan_html_block_end_5 : List Rule
unfolding any_char fold between
scan_html_block_end_5 = rule (seq (star any_char) (caseless (codes "]]>"))) taken ∷ []

-- `open (escaped_char|[^close\x00])* close`
unfoldable pub delimited : ℕ → ℕ → Regex
unfolding escaped_char one_of
delimited opening closing =
    sequence
      (byte opening ∷ star (alt escaped_char (other_than (closing ∷ 0 ∷ []))) ∷ byte closing ∷ [])

unfoldable pub scan_link_title : List Rule
unfolding delimited
scan_link_title =
    rule (delimited 34 34) taken
    ∷ rule (delimited 39 39) taken
    ∷ rule (delimited b'(' b')') taken
    ∷ []

unfoldable pub scan_spacechars : List Rule
unfolding spacechar
scan_spacechars = rule (star spacechar) taken ∷ []

unfoldable pub scan_atx_heading_start : List Rule
unfolding blank line_end
scan_atx_heading_start =
    rule (seq (times 1 (byte b'#') (up_to 5 (byte b'#'))) (alt (plus blank) line_end)) taken ∷ []

unfoldable pub scan_setext_heading_line : List Rule
unfolding blank line_end
scan_setext_heading_line =
    rule (sequence (plus (byte b'=') ∷ star blank ∷ line_end ∷ [])) (constant 1)
    ∷ rule (sequence (plus (byte b'-') ∷ star blank ∷ line_end ∷ [])) (constant 2)
    ∷ []

unfoldable pub break_of : ℕ → Rule
unfolding blank line_end
break_of c =
    let mark = seq (byte c) (star blank) in
    rule (seq (times 3 mark (star mark)) (seq (star blank) line_end)) taken

unfoldable pub scan_thematic_break : List Rule
unfolding break_of
scan_thematic_break = break_of b'*' ∷ break_of b'_' ∷ break_of b'-' ∷ []

unfoldable pub fence : ℕ → Regex
fence c = times 3 (byte c) (star (byte c))

unfoldable pub scan_open_code_fence : List Rule
unfolding fence line_end one_of
scan_open_code_fence =
    before (fence b'`') (seq (star (other_than (b'`' ∷ 13 ∷ 10 ∷ 0 ∷ []))) line_end)
    ∷ before (fence b'~') (seq (star (other_than (b'~' ∷ 13 ∷ 10 ∷ 0 ∷ []))) line_end)
    ∷ []

unfoldable pub scan_close_code_fence : List Rule
unfolding fence blank line_end
scan_close_code_fence =
    before (fence b'`') (seq (star blank) line_end)
    ∷ before (fence b'~') (seq (star blank) line_end)
    ∷ []

unfoldable pub scan_entity : List Rule
unfolding is_hex alphanumeric letter digit between one_of
scan_entity =
    let hexadecimal =
      seq (chars (one_of (codes "Xx"))) (times 1 (chars is_hex) (up_to 7 (chars is_hex))) in
    let decimal = times 1 (chars digit) (up_to 7 (chars digit)) in
    let named = seq (chars letter) (times 1 (chars alphanumeric) (up_to 30 (chars alphanumeric))) in
    rule
      (sequence
        (byte b'&' ∷ alt (seq (byte b'#') (alt hexadecimal decimal)) named ∷ byte b';' ∷ []))
      taken
    ∷ []

unfoldable pub scan_dangerous_url : List Rule
unfolding fold between
scan_dangerous_url =
    rule (seq (caseless (codes "data:image/")) (words ("png" ∷ "gif" ∷ "jpeg" ∷ "webp" ∷ [])))
      (constant 0)
    ∷ rule (words ("javascript:" ∷ "vbscript:" ∷ "file:" ∷ "data:" ∷ [])) taken
    ∷ []
