-- ===== src/Scanners/Rules.antt =====
-- The definitions at the head of scanners.re.
use cmark.Prelude.{ℕ, Bool, not, ◌||◌, [], ◌∷◌, ◌==◌, codes}
use cmark.Scanners.{Regex, chars, seq, alt, star}
use cmark.Scanners.Patterns.{
  between, one_of, letter, digit, alphanumeric, byte, other_than, literal, any_of, words, optional,
  plus, up_to, times, sequence, fold,
}

unfoldable pub spacechar : Regex
unfolding one_of
spacechar = chars (one_of (codes " \t\u{b}\u{c}\r\n"))

unfoldable pub blank : Regex
unfolding one_of
blank = chars (one_of (codes " \t"))

unfoldable pub line_end : Regex
unfolding one_of
line_end = chars (one_of (codes "\r\n"))

-- `.`
unfoldable pub any_char : Regex
any_char = chars (λ c. not (c == 10))

unfoldable pub nm_start : ℕ → Bool
unfolding letter between one_of
nm_start c = letter c || one_of (codes "_:") c

unfoldable pub nm_char : ℕ → Bool
unfolding nm_start digit one_of
nm_char c = nm_start c || digit c || one_of (codes ".-") c

unfoldable pub name : Regex
unfolding nm_start nm_char
name = seq (chars nm_start) (star (chars nm_char))

unfoldable pub nm_token : Regex
unfolding nm_char
nm_token = plus (chars nm_char)

unfoldable pub escaped_char : Regex
unfolding one_of
escaped_char = seq (byte b'\\') (chars (one_of (codes "!\"#$%&'()*+,./:;<=>?@[\\]^_`{|}~-")))

unfoldable pub block_tag_name : Regex
unfolding fold between
block_tag_name =
    alt
      (words (
        "address" ∷ "article" ∷ "aside" ∷ "base" ∷ "basefont" ∷ "blockquote" ∷ "body" ∷ "caption"
        ∷ "center" ∷ "col" ∷ []))
      (alt
        (words (
          "colgroup" ∷ "dd" ∷ "details" ∷ "dialog" ∷ "dir" ∷ "div" ∷ "dl" ∷ "dt" ∷ "fieldset"
          ∷ "figcaption" ∷ "figure" ∷ []))
        (alt
          (words (
            "footer" ∷ "form" ∷ "frame" ∷ "frameset" ∷ "h1" ∷ "h2" ∷ "h3" ∷ "h4" ∷ "h5" ∷ "h6"
            ∷ "head" ∷ "header" ∷ []))
          (alt
            (words (
              "hr" ∷ "html" ∷ "iframe" ∷ "legend" ∷ "li" ∷ "link" ∷ "main" ∷ "menu" ∷ "menuitem"
              ∷ "meta" ∷ "nav" ∷ []))
            (alt
              (words (
                "noframes" ∷ "ol" ∷ "optgroup" ∷ "option" ∷ "p" ∷ "param" ∷ "section" ∷ "source"
                ∷ "title" ∷ "summary" ∷ []))
              (words (
                "table" ∷ "tbody" ∷ "td" ∷ "tfoot" ∷ "th" ∷ "thead" ∷ "title" ∷ "tr" ∷ "track"
                ∷ "ul" ∷ []))))))

unfoldable pub quoted : ℕ → Regex
unfolding one_of
quoted q = sequence (byte q ∷ star (other_than (q ∷ 0 ∷ [])) ∷ byte q ∷ [])

unfoldable pub attribute_value : Regex
unfolding nm_token quoted
attribute_value = any_of (nm_token ∷ quoted 39 ∷ quoted 34 ∷ [])

unfoldable pub attribute : Regex
unfolding spacechar name attribute_value nm_token
attribute =
    let spec = sequence (star spacechar ∷ byte b'=' ∷ star spacechar ∷ attribute_value ∷ []) in
    seq (plus spacechar) (alt (seq name (optional spec)) nm_token)

unfoldable pub open_tag : Regex
unfolding name attribute spacechar
open_tag = alt (byte b'>') (
    sequence (
      name
      ∷ star attribute
      ∷ star spacechar
      ∷ alt (seq (optional (byte b'/')) (byte b'>')) (byte b'/')
      ∷ []))

unfoldable pub close_tag : Regex
unfolding name spacechar
close_tag =
    alt (literal (codes "/>")) (sequence (byte b'/' ∷ name ∷ star spacechar ∷ byte b'>' ∷ []))

unfoldable pub html_comment : Regex
unfolding one_of
html_comment =
    let first = seq (optional (byte b'-')) (other_than (0 ∷ b'>' ∷ b'-' ∷ [])) in
    let more = seq (optional (byte b'-')) (other_than (0 ∷ b'-' ∷ [])) in
    alt (literal (codes "!---->"))
      (sequence (literal (codes "!--") ∷ first ∷ star more ∷ literal (codes "-->") ∷ []))

unfoldable pub processing_instruction : Regex
unfolding one_of
processing_instruction =
    let part = any_of (
      plus (other_than (b'?' ∷ b'>' ∷ 0 ∷ []))
      ∷ seq (byte b'?') (other_than (b'>' ∷ 0 ∷ []))
      ∷ byte b'>'
      ∷ []) in
    sequence (byte b'?' ∷ star part ∷ optional (byte b'?') ∷ byte b'>' ∷ [])

unfoldable pub declaration : Regex
unfolding between spacechar one_of
declaration =
    let body = sequence (
      plus (chars (between b'A' b'Z')) ∷ plus spacechar ∷ star (other_than (b'>' ∷ 0 ∷ [])) ∷ []) in
    sequence (byte b'!' ∷ optional body ∷ byte b'>' ∷ [])

unfoldable pub cdata : Regex
unfolding one_of
cdata =
    let part = any_of (
      plus (other_than (b']' ∷ 0 ∷ []))
      ∷ seq (byte b']') (other_than (b']' ∷ 0 ∷ []))
      ∷ seq (literal (codes "]]")) (other_than (b'>' ∷ 0 ∷ []))
      ∷ []) in
    sequence (literal (codes "![CDATA[") ∷ star part ∷ literal (codes "]]>") ∷ [])

unfoldable pub html_tag : Regex
unfolding open_tag close_tag html_comment processing_instruction declaration cdata
html_tag =
    any_of (open_tag ∷ close_tag ∷ html_comment ∷ processing_instruction ∷ declaration ∷ cdata ∷ [])

unfoldable pub scheme : Regex
unfolding letter between alphanumeric one_of
scheme =
    let part = chars (λ c. alphanumeric c || one_of (codes ".+-") c) in
    seq (chars letter) (times 1 part (up_to 30 part))
