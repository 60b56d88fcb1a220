-- ===== src/Ltl/Semantics/Stop.antt =====
-- `stop_default` of lib/bombadil-ltl/src/stop.rs decides every residual, and its verdict is what the
-- residual says of a trace that has ended.
use bombadil.Common.{ℕ, zero, Bool, true, false, Option, none, some, ◌≡◌, refl, ap, ◌∙◌, arith}
use bombadil.Ltl.Domain.{Domain}
use bombadil.Ltl.Value.{Residual, assume_true, assume_false}
use bombadil.Ltl.Stop.{
  StopDefault, stop_default, stop_and_default, stop_or_default, stop_implies_default,
  stop_and_always_default, stop_or_eventually_default,
}
use bombadil.Ltl.Semantics.{Meaning, residual_holds}

abbrev pub passes : {D : Domain} → StopDefault D → Bool
passes (StopDefault.true_with _) = true
passes (StopDefault.false_with _) = false

-- The verdict is there, and it is `b`.
abbrev pub Decides : {D : Domain} → Option (StopDefault D) → Bool → Type 0
Decides o b = (s : StopDefault _) × (o ≡ some s) × (passes s ≡ b)

-- The verdict of a test that ends with `o`; `none` counts as a failure.
abbrev pub outcome : {D : Domain} → Option (StopDefault D) → Bool
outcome none = false
outcome (some s) = passes s

pub outcome-Decides :
    {D : Domain} (o : Option (StopDefault D)) (b : Bool) → Decides o b → outcome o ≡ b
outcome-Decides o b (s, e, h) = ap outcome e ∙ h

module _ {D : Domain} (meaning : Meaning D) (fuel : ℕ) (i : ℕ) (time : D.Time) where
  -- Every residual has a verdict, which is what the residual says where no state is left.
  pub stop_default-Decides :
      (r : Residual D) → Decides (stop_default r time) (residual_holds meaning fuel r i zero)
  unfolding stop_default residual_holds
  stop_default-Decides (Residual.true_with state) = (StopDefault.true_with state, refl, refl)
  stop_default-Decides (Residual.false_with v) = (StopDefault.false_with v, refl, refl)
  stop_default-Decides (Residual.derived _ assume_true) =
      (StopDefault.true_with D.default, refl, refl)
  stop_default-Decides (Residual.derived _ (assume_false v)) =
      (StopDefault.false_with v, refl, refl)
  stop_default-Decides (Residual.and l r) =
      let (a, ea, ha) = stop_default-Decides l in
      let (b, eb, hb) = stop_default-Decides r in
      (stop_and_default a b, rw (ea, eb), ground (arith, ha, hb))
  stop_default-Decides (Residual.or l r) =
      let (a, ea, ha) = stop_default-Decides l in
      let (b, eb, hb) = stop_default-Decides r in
      (stop_or_default a b, rw (ea, eb), ground (arith, ha, hb))
  stop_default-Decides (Residual.implies f l r) =
      let (a, ea, ha) = stop_default-Decides l in
      let (b, eb, hb) = stop_default-Decides r in
      (stop_implies_default f a b, rw (ea, eb), ground (arith, ha, hb))
  stop_default-Decides (Residual.or_eventually _ _ _ l r) =
      let (a, ea, ha) = stop_default-Decides l in
      let (b, eb, hb) = stop_default-Decides r in
      (stop_or_eventually_default a b, rw (ea, eb), ground (arith, ha, hb))
  stop_default-Decides (Residual.and_always f start end _ l r) =
      let (a, ea, ha) = stop_default-Decides l in
      let (b, eb, hb) = stop_default-Decides r in
      (stop_and_always_default f start end time a b, rw (ea, eb), ground (arith, ha, hb))
