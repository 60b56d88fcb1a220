-- ===== src/Rendering/Styled.antt =====
-- lib/bombadil/src/styled.rs: markup as the text of a terminal.
use bombadil.Common.{
  ℕ, zero, suc, ◌+◌, ◌-◌, Bool, true, false, ◌&&◌, Option, none, some, List, [], ◌∷◌, ◌++◌,
  if◌then◌else◌,
}
use bombadil.Common.Text.{Text, codes}
use bombadil.Schema.Time.{from_micros, format_duration}
use bombadil.Rendering.Markup.{Inline, SnapshotMarkup, Markup, Markups}
use bombadil.Rendering.Json.{Style, is_json_inline, render_json_value, maybe_bold, maybe_italic}

-- `items.iter().all(|item| is_json_inline(&item.value))`.
unfoldable pub all_inline : List SnapshotMarkup → Bool
all_inline [] = true
all_inline (item ∷ items) = is_json_inline item.value && all_inline items

unfoldable mutual
  pub is_inline : Markup → Bool
  is_inline (Markup.span inlines) = true
  is_inline (Markup.code_block code) = false
  is_inline (Markup.snapshots items) = all_inline items
  is_inline (Markup.stack items) = false
  is_inline (Markup.join items) = every_inline items
  is_inline Markup.comma = true

  pub every_inline : Markups → Bool
  every_inline Markups.nil = true
  every_inline (Markups.cons m ms) = is_inline m && every_inline ms

-- The nested items of a join in place of the join.
unfoldable mutual
  pub flatten_joins : Markups → List Markup
  flatten_joins Markups.nil = []
  flatten_joins (Markups.cons m ms) = flatten_item m ++ flatten_joins ms

  pub flatten_item : Markup → List Markup
  flatten_item (Markup.join nested) = flatten_joins nested
  flatten_item (Markup.span inlines) = Markup.span inlines ∷ []
  flatten_item (Markup.code_block code) = Markup.code_block code ∷ []
  flatten_item (Markup.snapshots items) = Markup.snapshots items ∷ []
  flatten_item (Markup.stack items) = Markup.stack items ∷ []
  flatten_item Markup.comma = Markup.comma ∷ []

-- What stands between an item and the next one, by whether they are inline.
unfoldable pub separator : Bool → Bool → Bool → Text
separator true true has_comma = if has_comma then codes ", " else codes " "
separator true false has_comma = 58 ∷ 10 ∷ 10 ∷ []
separator false current has_comma = 10 ∷ 10 ∷ []

unfoldable pub is_comma : Markup → Bool
is_comma Markup.comma = true
is_comma _ = false

unfoldable pub separator_after : Option Markup → Markup → Bool → Text
unfolding separator is_inline
separator_after none item has_comma = []
separator_after (some previous) item has_comma =
    separator (is_inline previous) (is_inline item) has_comma

-- `next_separator_has_comma` is reset only where a separator is pushed.
abbrev pub has_comma_after : Option Markup → Bool → Bool
has_comma_after none has_comma = has_comma
has_comma_after (some previous) has_comma = false

-- The loop of `render_join`, with the previous item that is no comma.
unfoldable pub render_items : (Markup → Text) → List Markup → Option Markup → Bool → Text
unfolding is_comma separator_after
render_items render [] previous has_comma = []
render_items render (item ∷ items) previous has_comma =
    let skipped = render_items render items previous true in
    let rest = render_items render items (some item) (has_comma_after previous has_comma) in
    if is_comma item
    then skipped
    else separator_after previous item has_comma ++ render item ++ rest

-- The items of a stack.
unfoldable pub render_stacked : (Markup → Text) → Markups → Bool → Text
render_stacked render Markups.nil first = []
render_stacked render (Markups.cons m ms) first =
    (if first then [] else 10 ∷ 10 ∷ []) ++ render m ++ render_stacked render ms false

module _ (style : Style) (test_start : ℕ) where
  -- The difference stops at 0, as that of `saturating_sub`.
  unfoldable pub render_inline : Inline → Text
  unfolding maybe_bold maybe_italic
  render_inline (Inline.text text) = text
  render_inline (Inline.code code) = maybe_italic style code
  render_inline (Inline.time time) =
      maybe_bold style (format_duration (from_micros (time - test_start)) true)
  render_inline (Inline.keyword keyword) = keyword

  unfoldable pub render_inlines : List Inline → Text
  unfolding render_inline
  render_inlines [] = []
  render_inlines (inline ∷ inlines) = render_inline inline ++ render_inlines inlines

  unfoldable pub render_snapshots : Bool → List SnapshotMarkup → Bool → Text
  render_snapshots inline [] first = []
  render_snapshots inline (snapshot ∷ snapshots) first =
      (if first then [] else if inline then codes ", " else 10 ∷ [])
      ++ snapshot.name
      ++ codes " = "
      ++ render_json_value style snapshot.value 0
      ++ render_snapshots inline snapshots false

  -- What is pushed to the output, with fuel for the depth of the markup.
  unfoldable pub render_markup : ℕ → Markup → Text
  unfolding all_inline flatten_joins render_items render_stacked render_inlines render_snapshots
  render_markup zero markup = []
  render_markup (suc fuel) (Markup.span inlines) = render_inlines inlines
  render_markup (suc fuel) (Markup.code_block code) = maybe_italic style code
  render_markup (suc fuel) (Markup.snapshots snapshots) =
      render_snapshots (all_inline snapshots) snapshots true
  render_markup (suc fuel) (Markup.stack items) = render_stacked (render_markup fuel) items true
  render_markup (suc fuel) (Markup.join items) =
      render_items (render_markup fuel) (flatten_joins items) none false
  render_markup (suc fuel) Markup.comma = []

-- A bound on the depth of joins and stacks.
unfoldable mutual
  pub depth : Markup → ℕ
  depth (Markup.stack items) = suc (depth_all items)
  depth (Markup.join items) = suc (depth_all items)
  depth _ = 0

  pub depth_all : Markups → ℕ
  depth_all Markups.nil = 0
  depth_all (Markups.cons m ms) = depth m + depth_all ms

-- The text of the markup of a test that started at `test_start`.
unfoldable pub markup_to_styled : Style → ℕ → Markup → Text
unfolding render_markup depth
markup_to_styled style test_start markup =
    render_markup style test_start (suc (depth markup)) markup
