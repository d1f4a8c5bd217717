-- ===== src/Tests/Texts.antt =====
-- utf8.c and the houdini_*_e.c files on concrete texts.
use cmark.Prelude.{◌≡◌, refl, inl, true, [], ◌∷◌, ◌++◌, length, ◌+◌, some, none, ok, arith}
use cmark.Utf8.{iterate, encode}
use cmark.Utf8.RoundTrip.{IsScalar, iterate-encode, encode_noncharacter}
use cmark.Utf8.Valid.{Verdict}
use cmark.Utf8.Classes.{is_unicode_space, within, space_ranges}
use cmark.Utf8.Valid.All.{AllBytes, verdict}
use cmark.Houdini.Loop.{escaped}
use cmark.Houdini.{
  escape_html0, escape_href, escape_code, html_escape_table, html_literal, html_escapes, href_safe,
  href_safe_table, hex_escape,
}
use cmark.Houdini.Html.{
  html_piece, html_escaped, escape_html0-escaped, all, no_markup, html_escaped-no_markup,
}
use cmark.Houdini.HtmlRead.{read_all, read_all-html_escaped}
use cmark.Houdini.Href.{
  href_piece, href_escaped, escape_href-escaped, in_attribute, href_escaped-in_attribute,
}
use cmark.Buffer.Layout.{Holds, Ends}
use cmark.Tests.{libc_example, codes, text_example, buffer_example, buffer_example-Holds}

-- The euro sign.
euro : IsScalar 0x20AC
euro = record { in_range = omega arith; not_surrogate = inl (omega arith) }

iterate-encode_example :
    iterate (encode 0x20AC ++ codes "5") ≡ ok (some (length (encode 0x20AC), 0x20AC))
iterate-encode_example =
    iterate-encode 0x20AC (codes "5") euro (λ e. omega (arith, e)) (λ e. omega (arith, e))

encode_noncharacter_example : iterate (encode 0xFFFF ++ codes "5") ≡ ok none
encode_noncharacter_example = encode_noncharacter 0xFFFF (codes "5") (inl refl)

verdict_example : Verdict (226 ∷ 130 ∷ 172 ∷ 53 ∷ [])
verdict_example =
    verdict 226 (130 ∷ 172 ∷ 53 ∷ []) (omega arith, (omega arith, (omega arith, (omega arith, tt))))

markup_example-AllBytes : AllBytes (codes "<a&b>")
markup_example-AllBytes =
    (omega arith, (omega arith, (omega arith, (omega arith, (omega arith, tt)))))

html_example : html_escaped true (codes "<a&b>") ≡ codes "&lt;a&amp;b&gt;"
unfolding escaped escape_code html_escape_table html_piece html_literal html_escapes
html_example = refl

href_example : href_escaped (codes "<a&b>") ≡ codes "%3Ca&amp;b%3E"
unfolding escaped href_safe href_safe_table href_piece hex_escape
href_example = refl

escape_html0-escaped_example :
    Ends
      (7 + length (html_escaped true (codes "<a&b>")))
      (λ b. Holds b (text_example ++ html_escaped true (codes "<a&b>")))
      (escape_html0 buffer_example (codes "<a&b>") true)
escape_html0-escaped_example =
    escape_html0-escaped true buffer_example text_example (codes "<a&b>") buffer_example-Holds
      markup_example-AllBytes (rw html_example (omega arith))

html_escaped-no_markup_example : all no_markup (html_escaped true (codes "<a&b>")) ≡ true
html_escaped-no_markup_example = html_escaped-no_markup true (codes "<a&b>") markup_example-AllBytes

read_all-html_escaped_example :
    read_all 6 (html_escaped true (codes "<a&b>")) ≡ some (codes "<a&b>")
read_all-html_escaped_example =
    read_all-html_escaped true (codes "<a&b>") 6 markup_example-AllBytes (omega arith)

escape_href-escaped_example :
    Ends
      (7 + length (href_escaped (codes "<a&b>")))
      (λ b. Holds b (text_example ++ href_escaped (codes "<a&b>")))
      (escape_href buffer_example (codes "<a&b>"))
escape_href-escaped_example =
    escape_href-escaped buffer_example text_example (codes "<a&b>") buffer_example-Holds
      markup_example-AllBytes (rw href_example (omega arith))

href_escaped-in_attribute_example : all in_attribute (href_escaped (codes "<a&b>")) ≡ true
href_escaped-in_attribute_example =
    href_escaped-in_attribute (codes "<a&b>") markup_example-AllBytes

-- The ideographic space.
ideographic-is_unicode_space : is_unicode_space 12288 ≡ true
unfolding is_unicode_space within space_ranges
ideographic-is_unicode_space = refl
