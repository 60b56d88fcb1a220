-- ===== src/Rendering/Inline.antt =====
-- That what `is_inline` of lib/bombadil/src/styled.rs accepts is shown on a single line.
use bombadil.Common.{
  ℕ, zero, suc, Bool, true, false, Option, none, some, List, [], ◌∷◌, ◌++◌, ◌≡◌, refl, inl, inr,
  All, Bool-cases, split_and,
}
use bombadil.Common.Text.{Text}
use bombadil.Rendering.Markup.{Markup, Markups}
use bombadil.Rendering.Violations.{contains_newline}
use bombadil.Rendering.Json.{Style}
use bombadil.Rendering.Styled.{
  is_inline, every_inline, flatten_joins, flatten_item, separator, is_comma, separator_after,
  has_comma_after, render_items, render_markup, depth, markup_to_styled,
}
use bombadil.Rendering.Lines.{
  IsLine, KeepsLines, IsPlain, ArePlain, IsLine-append, inlines-IsLine, snapshots-IsLine,
}

module _ (style : Style) (keeps : KeepsLines style) (test_start : ℕ) where
  abbrev IsShown : Markup → Type 0
  IsShown m = (is_inline m ≡ true) × IsPlain m

  IsShown-append : (ms ns : List Markup) → All IsShown ms → All IsShown ns → All IsShown (ms ++ ns)
  IsShown-append [] ns p q = q
  IsShown-append (m ∷ ms) ns p q = (p.0, IsShown-append ms ns (p.1) q)

  mutual
    unfolding flatten_joins is_inline IsPlain

    flatten_joins-IsShown :
        (items : Markups)
        → every_inline items ≡ true
        → ArePlain items
        → All IsShown (flatten_joins items)
    flatten_joins-IsShown Markups.nil e p = tt
    flatten_joins-IsShown (Markups.cons m ms) e p =
        let (here, rest) = split_and (is_inline m) (every_inline ms) e in
        IsShown-append (flatten_item m) (flatten_joins ms) (flatten_item-IsShown m here (p.0))
          (flatten_joins-IsShown ms rest (p.1))

    flatten_item-IsShown :
        (m : Markup) → is_inline m ≡ true → IsPlain m → All IsShown (flatten_item m)
    flatten_item-IsShown (Markup.join nested) e p = flatten_joins-IsShown nested e p
    flatten_item-IsShown (Markup.span inlines) e p = ((e, p), tt)
    flatten_item-IsShown (Markup.code_block code) e p = cc
    flatten_item-IsShown (Markup.snapshots items) e p = ((e, p), tt)
    flatten_item-IsShown (Markup.stack items) e p = cc
    flatten_item-IsShown Markup.comma e p = ((e, p), tt)

  separator-IsLine : (c : Bool) → IsLine (separator true true c)
  unfolding separator contains_newline
  separator-IsLine true = refl
  separator-IsLine false = refl

  -- The previous item, if there is one, is inline.
  abbrev WasInline : Option Markup → Type 0
  WasInline none = Unit
  WasInline (some previous) = is_inline previous ≡ true

  separator_after-IsLine :
      (previous : Option Markup) (item : Markup) (c : Bool)
      → WasInline previous
      → is_inline item ≡ true
      → IsLine (separator_after previous item c)
  unfolding separator_after
  separator_after-IsLine none item c p e = unfold contains_newline in refl
  separator_after-IsLine (some previous) item c p e = rw (p, e) (separator-IsLine c)

  render_items-IsLine :
      (render : Markup → Text)
      → ((m : Markup) → IsShown m → IsLine (render m))
      → (items : List Markup) (previous : Option Markup) (c : Bool) → WasInline previous
      → All IsShown items
      → IsLine (render_items render items previous c)
  unfolding render_items
  render_items-IsLine render h [] previous c w p = unfold contains_newline in refl
  render_items-IsLine render h (item ∷ items) previous c w p =
      let shown = p.0 in
      elim (Bool-cases (is_comma item)) [
        | inl e ↦ rw e (render_items-IsLine render h items previous true w (p.1))
        | inr e ↦ rw e (
            IsLine-append _ _
              (IsLine-append _ _ (separator_after-IsLine previous item c w (shown.0))
                (h item shown))
              (render_items-IsLine render h items (some item) (has_comma_after previous c) (shown.0)
                (p.1)))
      ]

  markup-IsLine :
      (fuel : ℕ) (m : Markup) → IsShown m → IsLine (render_markup style test_start fuel m)
  unfolding render_markup is_inline IsPlain
  markup-IsLine zero m p = unfold contains_newline in refl
  markup-IsLine (suc fuel) (Markup.span inlines) p =
      inlines-IsLine style keeps test_start inlines (p.1)
  markup-IsLine (suc fuel) (Markup.code_block code) p = cc (p.0)
  markup-IsLine (suc fuel) (Markup.snapshots items) p =
      rw (p.0) (snapshots-IsLine style keeps test_start items true (p.0) (p.1))
  markup-IsLine (suc fuel) (Markup.stack items) p = cc (p.0)
  markup-IsLine (suc fuel) (Markup.join items) p =
      render_items-IsLine (render_markup style test_start fuel) (markup-IsLine fuel)
        (flatten_joins items) none false tt (flatten_joins-IsShown items (p.0) (p.1))
  markup-IsLine (suc fuel) Markup.comma p = unfold contains_newline in refl

  -- Where the libraries keep lines, and no text of a span, name of a snapshot or number in the
  -- markup has a line break, markup that is inline is shown without a line break.
  pub markup_to_styled-IsLine :
      (m : Markup) → is_inline m ≡ true → IsPlain m → IsLine (markup_to_styled style test_start m)
  unfolding markup_to_styled
  markup_to_styled-IsLine m e p = markup-IsLine (suc (depth m)) m (e, p)
