-- ===== src/Rendering/Lines.antt =====
-- Which texts of lib/bombadil/src/styled.rs have no line break.
use bombadil.Common.{
  ℕ, ◌/◌, ◌%◌, Bool, true, false, List, [], ◌∷◌, ◌++◌, ◌≡◌, refl, inl, inr, ltb, arith, All,
  Bool-cases, split_and, if◌then◌else◌,
}
use bombadil.Common.Text.{Text, codes, is_digit, decimal, AreDigits, decimal-AreDigits}
use bombadil.Schema.Time.{Duration, subsec_millis, padded2, padded3, format_duration}
use bombadil.Schema.Types.{Json, Items, Members}
use bombadil.Rendering.Markup.{Inline, SnapshotMarkup, Markup, Markups}
use bombadil.Rendering.Violations.{contains_newline}
use bombadil.Rendering.Json.{
  Style, is_json_inline, is_control, any_control, is_simple_string, render_json_value, maybe_blue,
  maybe_bold, maybe_italic,
}
use bombadil.Rendering.Styled.{all_inline, render_inline, render_inlines, render_snapshots}

abbrev pub IsLine : Text → Type 0
IsLine s = contains_newline s ≡ false

pub IsLine-append : (s t : Text) → IsLine s → IsLine t → IsLine (s ++ t)
unfolding contains_newline
IsLine-append [] t p q = q
IsLine-append (c ∷ s) t p q = ground (arith, p, IsLine-append s t, q)

digits-IsLine : (s : Text) → AreDigits s → IsLine s
unfolding contains_newline is_digit
digits-IsLine [] h = refl
digits-IsLine (c ∷ s) h = ground (arith, h.0, digits-IsLine s (h.1))

-- The libraries add no line breaks, and the text of a JSON string has none: they are escaped.
pub record KeepsLines (style : Style) : Type 0 where
  pub keeps_blue : (s : Text) → IsLine s → IsLine (style.blue s)
  pub keeps_bold : (s : Text) → IsLine s → IsLine (style.bold s)
  pub keeps_italic : (s : Text) → IsLine s → IsLine (style.italic s)
  pub escapes : (s : Text) → IsLine (style.to_string s)

abbrev pub IsPlainInline : Inline → Type 0
IsPlainInline (Inline.text s) = IsLine s
IsPlainInline (Inline.code s) = IsLine s
IsPlainInline (Inline.keyword s) = IsLine s
IsPlainInline (Inline.time t) = Unit

abbrev pub IsPlainJson : Json → Type 0
IsPlainJson (Json.number n) = IsLine n
IsPlainJson _ = Unit

abbrev pub IsPlainItem : SnapshotMarkup → Type 0
IsPlainItem s = IsLine s.name × IsPlainJson s.value

-- No text of a span, name of a snapshot or number has a line break.
unfoldable mutual
  pub IsPlain : Markup → Type 0
  IsPlain (Markup.span inlines) = All IsPlainInline inlines
  IsPlain (Markup.snapshots items) = All IsPlainItem items
  IsPlain (Markup.join items) = ArePlain items
  IsPlain _ = Unit

  pub ArePlain : Markups → Type 0
  ArePlain Markups.nil = Unit
  ArePlain (Markups.cons m ms) = IsPlain m × ArePlain ms

decimal-IsLine : (n : ℕ) → IsLine (decimal n)
decimal-IsLine n = digits-IsLine (decimal n) (decimal-AreDigits n)

padded2-IsLine : (n : ℕ) → IsLine (padded2 n)
unfolding padded2 contains_newline
padded2-IsLine n = ground (arith, decimal-IsLine n)

padded3-IsLine : (n : ℕ) → IsLine (padded3 n)
unfolding padded3 contains_newline
padded3-IsLine n = ground (arith, decimal-IsLine n)

millis-IsLine : (b : Bool) (n : ℕ) → IsLine (if b then b'.' ∷ padded3 n else [])
unfolding contains_newline
millis-IsLine true n = padded3-IsLine n
millis-IsLine false n = refl

colon-IsLine : (s : Text) → IsLine s → IsLine (b':' ∷ s)
unfolding contains_newline
colon-IsLine s h = h

format_duration-IsLine : (d : Duration) (b : Bool) → IsLine (format_duration d b)
unfolding format_duration
format_duration-IsLine d b =
    let hours = padded2-IsLine (d.secs / 3600) in
    let minutes = padded2-IsLine (d.secs % 3600 / 60) in
    let seconds = colon-IsLine _ (padded2-IsLine (d.secs % 60)) in
    let millis = millis-IsLine b (subsec_millis d) in
    elim (Bool-cases (ltb 0 (d.secs / 3600))) [
      | inl e ↦ rw e (
          IsLine-append _ _
            (IsLine-append _ _ (IsLine-append _ _ hours (colon-IsLine _ minutes)) seconds) millis)
      | inr e ↦ rw e (IsLine-append _ _ (IsLine-append _ _ minutes seconds) millis)
    ]

no_control-IsLine : (s : Text) → any_control s ≡ false → IsLine s
unfolding any_control is_control contains_newline
no_control-IsLine [] h = refl
no_control-IsLine (c ∷ s) h = ground (arith, h, no_control-IsLine s)

simple-IsLine : (s : Text) → is_simple_string s ≡ true → IsLine s
unfolding is_simple_string
simple-IsLine [] h = cc
simple-IsLine (c ∷ s) h = elim (Bool-cases (any_control (c ∷ s))) [
  | inl e ↦ absurd (ground (arith, e, h))
  | inr e ↦ no_control-IsLine (c ∷ s) e
]

module _ (style : Style) (keeps : KeepsLines style) where
  blue-IsLine : (s : Text) → IsLine s → IsLine (maybe_blue style s)
  unfolding maybe_blue
  blue-IsLine s h = elim (Bool-cases style.supports_color) [
    | inl e ↦ rw e (keeps.keeps_blue s h)
    | inr e ↦ rw e h
  ]

  bold-IsLine : (s : Text) → IsLine s → IsLine (maybe_bold style s)
  unfolding maybe_bold
  bold-IsLine s h = elim (Bool-cases style.supports_color) [
    | inl e ↦ rw e (keeps.keeps_bold s h)
    | inr e ↦ rw e h
  ]

  italic-IsLine : (s : Text) → IsLine s → IsLine (maybe_italic style s)
  unfolding maybe_italic
  italic-IsLine s h = elim (Bool-cases style.supports_color) [
    | inl e ↦ rw e (keeps.keeps_italic s h)
    | inr e ↦ rw e h
  ]

  json-IsLine :
      (v : Json) (indent : ℕ)
      → is_json_inline v ≡ true
      → IsPlainJson v
      → IsLine (render_json_value style v indent)
  unfolding is_json_inline render_json_value
  json-IsLine Json.null indent e p = blue-IsLine _ (unfold contains_newline in refl)
  json-IsLine (Json.bool true) indent e p = blue-IsLine _ (unfold contains_newline in refl)
  json-IsLine (Json.bool false) indent e p = blue-IsLine _ (unfold contains_newline in refl)
  json-IsLine (Json.number n) indent e p = blue-IsLine n p
  json-IsLine (Json.string s) indent e p = elim (Bool-cases (is_simple_string s)) [
    | inl simple ↦ rw simple (blue-IsLine s (simple-IsLine s simple))
    | inr other ↦ rw other (blue-IsLine _ (keeps.escapes s))
  ]
  json-IsLine (Json.array Items.no_items) indent e p =
      blue-IsLine _ (unfold contains_newline in refl)
  json-IsLine (Json.array (Items.item _ _)) indent e p = cc
  json-IsLine (Json.object Members.no_members) indent e p =
      blue-IsLine _ (unfold contains_newline in refl)
  json-IsLine (Json.object (Members.member _ _ _)) indent e p = cc

  module _ (test_start : ℕ) where
    inline-IsLine : (i : Inline) → IsPlainInline i → IsLine (render_inline style test_start i)
    unfolding render_inline
    inline-IsLine (Inline.text s) p = p
    inline-IsLine (Inline.code s) p = italic-IsLine s p
    inline-IsLine (Inline.keyword s) p = p
    inline-IsLine (Inline.time t) p = bold-IsLine _ (format_duration-IsLine _ true)

    pub inlines-IsLine :
        (is : List Inline) → All IsPlainInline is → IsLine (render_inlines style test_start is)
    unfolding render_inlines
    inlines-IsLine [] p = unfold contains_newline in refl
    inlines-IsLine (i ∷ is) p = IsLine-append _ _ (inline-IsLine i (p.0)) (inlines-IsLine is (p.1))

    comma-IsLine : (first : Bool) → IsLine (if first then [] else codes ", ")
    unfolding contains_newline
    comma-IsLine true = refl
    comma-IsLine false = refl

    pub snapshots-IsLine :
        (items : List SnapshotMarkup) (first : Bool)
        → all_inline items ≡ true
        → All IsPlainItem items
        → IsLine (render_snapshots style test_start true items first)
    unfolding all_inline render_snapshots
    snapshots-IsLine [] first e p = unfold contains_newline in refl
    snapshots-IsLine (item ∷ items) first e p =
        let (here, rest) = split_and (is_json_inline item.value) (all_inline items) e in
        let equals : IsLine (codes " = ") = unfold contains_newline in refl in
        IsLine-append _ _
          (IsLine-append _ _
            (IsLine-append _ _ (IsLine-append _ _ (comma-IsLine first) (p.0.0)) equals)
            (json-IsLine item.value 0 here (p.0.1)))
          (snapshots-IsLine items false rest (p.1))
