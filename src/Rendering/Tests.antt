-- ===== src/Rendering/Tests.antt =====
-- The theorems of `Rendering` at the markup of a violation.
use bombadil.Common.{true, [], ◌∷◌, ◌≡◌, refl, arith, ◌==◌, if◌then◌else◌}
use bombadil.Common.Text.{Text, codes, decimal}
use bombadil.Schema.Time.{format_duration, padded2, padded3}
use bombadil.Schema.Types.{Json}
use bombadil.Rendering.Markup.{Inline, Markup, vec}
use bombadil.Rendering.Violations.{contains_newline}
use bombadil.Rendering.Json.{
  Style, is_json_inline, is_control, any_control, render_json_value, maybe_blue, is_simple_string,
}
use bombadil.Rendering.Styled.{is_inline, all_inline, markup_to_styled}
use bombadil.Rendering.Lines.{IsLine, KeepsLines, IsPlain}
use bombadil.Rendering.Inline.{markup_to_styled-IsLine}

-- Line breaks are escaped.
abbrev escape : Text → Text
escape [] = []
escape (c ∷ s) = (if c == 10 then b'n' else c) ∷ escape s

escape-IsLine : (s : Text) → IsLine (escape s)
unfolding contains_newline
escape-IsLine [] = refl
escape-IsLine (c ∷ s) = ground (arith, escape-IsLine s)

abbrev plain : Style
plain = record {
  supports_color = true;
  blue = λ s. b'<' ∷ s;
  bold = λ s. s;
  italic = λ s. s;
  dimmed = λ s. s;
  red = λ s. s;
  to_string = escape;
}

plain-KeepsLines : KeepsLines plain
unfolding contains_newline
plain-KeepsLines = record {
  keeps_blue = λ s h. h;
  keeps_bold = λ s h. h;
  keeps_italic = λ s h. h;
  escapes = escape-IsLine;
}

abbrev clicks : Markup
clicks = Markup.join (
    vec (
      Markup.span (Inline.text (codes "at ") ∷ Inline.time 3005000 ∷ [])
      ∷ Markup.comma
      ∷ Markup.join (
          vec (
            Markup.snapshots (
              record { name = codes "n"; value = Json.number (codes "3") }
              ∷ record { name = codes "s"; value = Json.string (codes "a\nb") }
              ∷ [])
            ∷ []))
      ∷ []))

shows_clicks : markup_to_styled plain 1000000 clicks ≡ codes "at 00:02.005, n = <3, s = <anb"
unfolding markup_to_styled format_duration padded2 padded3 decimal is_json_inline render_json_value
    maybe_blue is_simple_string any_control is_control
shows_clicks = refl

clicks-IsPlain : IsPlain clicks
unfolding IsPlain contains_newline
clicks-IsPlain = ((refl, (tt, tt)), (tt, ((((refl, refl), ((refl, tt), tt)), tt), tt)))

clicks_inline : is_inline clicks ≡ true
unfolding is_inline all_inline is_json_inline
clicks_inline = refl

markup_to_styled-IsLine_example : IsLine (markup_to_styled plain 1000000 clicks)
markup_to_styled-IsLine_example =
    markup_to_styled-IsLine plain plain-KeepsLines 1000000 clicks clicks_inline clicks-IsPlain
