-- ===== src/Rendering/Depth.antt =====
-- That the rendering of lib/bombadil/src/styled.rs ends: fuel for the depth of the markup is enough.
use bombadil.Common.{
  ℕ, zero, suc, ◌≤◌, ◌<◌, Bool, true, false, Option, none, some, List, [], ◌∷◌, ◌++◌, ◌≡◌, refl,
  arith, All, Bool-cases, inl, inr,
}
use bombadil.Common.Text.{Text}
use bombadil.Rendering.Markup.{Markup, Markups}
use bombadil.Rendering.Json.{Style}
use bombadil.Rendering.Styled.{
  is_comma, has_comma_after, flatten_joins, flatten_item, render_items, render_stacked,
  render_markup, depth, depth_all,
}

abbrev IsWithin : ℕ → List Markup → Type 0
IsWithin n = All λ m. depth m ≤ n

IsWithin-append :
    (n : ℕ) (ms ns : List Markup) → IsWithin n ms → IsWithin n ns → IsWithin n (ms ++ ns)
IsWithin-append n [] ns p q = q
IsWithin-append n (m ∷ ms) ns p q = (p.0, IsWithin-append n ms ns (p.1) q)

mutual
  unfolding flatten_joins depth

  flatten_joins-IsWithin :
      (items : Markups) (n : ℕ) → depth_all items ≤ n → IsWithin n (flatten_joins items)
  flatten_joins-IsWithin Markups.nil n h = tt
  flatten_joins-IsWithin (Markups.cons m ms) n h =
      IsWithin-append n (flatten_item m) (flatten_joins ms)
        (flatten_item-IsWithin m n (omega (arith, h)))
        (flatten_joins-IsWithin ms n (omega (arith, h)))

  flatten_item-IsWithin : (m : Markup) (n : ℕ) → depth m ≤ n → IsWithin n (flatten_item m)
  flatten_item-IsWithin (Markup.join nested) n h =
      flatten_joins-IsWithin nested n (omega (arith, h))
  flatten_item-IsWithin (Markup.span inlines) n h = (h, tt)
  flatten_item-IsWithin (Markup.code_block code) n h = (h, tt)
  flatten_item-IsWithin (Markup.snapshots items) n h = (h, tt)
  flatten_item-IsWithin (Markup.stack items) n h = (h, tt)
  flatten_item-IsWithin Markup.comma n h = (h, tt)

-- Two ways of rendering that agree on the markup up to a depth.
abbrev AgreeTo : ℕ → (Markup → Text) → (Markup → Text) → Type 0
AgreeTo n r s = (m : Markup) → depth m ≤ n → r m ≡ s m

render_items-agree :
    (n : ℕ) (r s : Markup → Text)
    → AgreeTo n r s
    → (items : List Markup) (previous : Option Markup) (c : Bool) → IsWithin n items
    → render_items r items previous c ≡ render_items s items previous c
unfolding render_items
render_items-agree n r s a [] p c h = refl
render_items-agree n r s a (m ∷ items) p c h = elim (Bool-cases (is_comma m)) [
  | inl e ↦ rw e (render_items-agree n r s a items p true (h.1))
  | inr e ↦
      rw (e, a m (h.0), render_items-agree n r s a items (some m) (has_comma_after p c) (h.1)) refl
]

render_stacked-agree :
    (n : ℕ) (r s : Markup → Text)
    → AgreeTo n r s
    → (items : Markups) (first : Bool) → depth_all items ≤ n
    → render_stacked r items first ≡ render_stacked s items first
unfolding render_stacked depth
render_stacked-agree n r s a Markups.nil first h = refl
render_stacked-agree n r s a (Markups.cons m ms) first h =
    rw (a m (omega (arith, h)), render_stacked-agree n r s a ms false (omega (arith, h))) refl

module _ (style : Style) (test_start : ℕ) where
  -- Any two amounts of fuel above the depth give the same text.
  pub render_markup-fuel :
      (f g : ℕ) (m : Markup)
      → depth m < f
      → depth m < g
      → render_markup style test_start f m ≡ render_markup style test_start g m
  unfolding render_markup depth
  render_markup-fuel zero g m p q = absurd (omega (arith, p))
  render_markup-fuel (suc f) zero m p q = absurd (omega (arith, q))
  render_markup-fuel (suc f) (suc g) (Markup.stack items) p q =
      render_stacked-agree (depth_all items) _ _
        (λ m h. render_markup-fuel f g m (omega (arith, h, p)) (omega (arith, h, q))) items true
        (omega arith)
  render_markup-fuel (suc f) (suc g) (Markup.join items) p q =
      render_items-agree (depth_all items) _ _
        (λ m h. render_markup-fuel f g m (omega (arith, h, p)) (omega (arith, h, q)))
        (flatten_joins items) none false
        (flatten_joins-IsWithin items (depth_all items) (omega arith))
  render_markup-fuel (suc f) (suc g) (Markup.span inlines) p q = refl
  render_markup-fuel (suc f) (suc g) (Markup.code_block code) p q = refl
  render_markup-fuel (suc f) (suc g) (Markup.snapshots items) p q = refl
  render_markup-fuel (suc f) (suc g) Markup.comma p q = refl
