-- ===== src/Ltl/Stop.antt =====
-- lib/bombadil-ltl/src/stop.rs: the verdict on what is still pending when a test stops.
use mathlib.Core.Option
use bombadil.Common.{Option, some}
use bombadil.Ltl.Domain.{Domain}
use bombadil.Ltl.Formula.{Formula}
use bombadil.Ltl.Violation.{Violation}
use bombadil.Ltl.Value.{Residual, assume_true, assume_false}

pub data StopDefault (D : Domain) : Type 0 where
  true_with : D.State → StopDefault D
  false_with : Violation D → StopDefault D

module _ {D : Domain} where
  unfoldable pub stop_and_default : StopDefault D → StopDefault D → StopDefault D
  stop_and_default (StopDefault.true_with left) (StopDefault.true_with right) =
      StopDefault.true_with (D.merge left right)
  stop_and_default (StopDefault.true_with _) right = right
  stop_and_default left (StopDefault.true_with _) = left
  stop_and_default (StopDefault.false_with left) (StopDefault.false_with right) =
      StopDefault.false_with (Violation.and left right)

  unfoldable pub stop_or_default : StopDefault D → StopDefault D → StopDefault D
  stop_or_default (StopDefault.true_with left) (StopDefault.true_with right) =
      StopDefault.true_with (D.merge left right)
  stop_or_default (StopDefault.true_with state) _ = StopDefault.true_with state
  stop_or_default _ (StopDefault.true_with state) = StopDefault.true_with state
  stop_or_default (StopDefault.false_with left) (StopDefault.false_with right) =
      StopDefault.false_with (Violation.or left right)

  unfoldable pub stop_implies_default : Formula D → StopDefault D → StopDefault D → StopDefault D
  stop_implies_default left_formula (StopDefault.false_with _) _ = StopDefault.true_with D.default
  stop_implies_default left_formula (StopDefault.true_with state)
        (StopDefault.false_with violation) =
      StopDefault.false_with (Violation.implies left_formula violation state)
  stop_implies_default left_formula (StopDefault.true_with left) (StopDefault.true_with right) =
      StopDefault.true_with (D.merge left right)

  unfoldable pub stop_and_always_default :
      Formula D → D.Time → Option D.Time → D.Time → StopDefault D → StopDefault D → StopDefault D
  stop_and_always_default subformula start end time (StopDefault.true_with _) right = right
  stop_and_always_default subformula start end time (StopDefault.false_with violation) _ =
      StopDefault.false_with (Violation.always violation subformula start end time)

  unfoldable pub stop_or_eventually_default : StopDefault D → StopDefault D → StopDefault D
  stop_or_eventually_default (StopDefault.true_with state) _ = StopDefault.true_with state
  stop_or_eventually_default _ (StopDefault.true_with state) = StopDefault.true_with state
  stop_or_eventually_default _ (StopDefault.false_with right) = StopDefault.false_with right

  -- `left.and_then(|s1| right.map(|s2| combine(s1, s2)))`.
  abbrev both :
      Option (StopDefault D)
      → Option (StopDefault D)
      → (StopDefault D → StopDefault D → StopDefault D)
      → Option (StopDefault D)
  both left right combine = Option.bind left (λ s1. Option.map (combine s1) right)

  unfoldable pub stop_default : Residual D → D.Time → Option (StopDefault D)
  unfolding stop_and_default stop_or_default stop_implies_default stop_and_always_default
      stop_or_eventually_default Option.bind
  stop_default (Residual.true_with state) time = some (StopDefault.true_with state)
  stop_default (Residual.false_with violation) time = some (StopDefault.false_with violation)
  stop_default (Residual.derived _ (assume_false violation)) time =
      some (StopDefault.false_with violation)
  stop_default (Residual.derived _ assume_true) time = some (StopDefault.true_with D.default)
  stop_default (Residual.and left right) time =
      both (stop_default left time) (stop_default right time) stop_and_default
  stop_default (Residual.or left right) time =
      both (stop_default left time) (stop_default right time) stop_or_default
  stop_default (Residual.implies left_formula left right) time =
      both (stop_default left time) (stop_default right time) (stop_implies_default left_formula)
  stop_default (Residual.and_always subformula start end _ left right) time =
      both (stop_default left time) (stop_default right time)
        (stop_and_always_default subformula start end time)
  stop_default (Residual.or_eventually _ _ _ left right) time =
      both (stop_default left time) (stop_default right time) stop_or_eventually_default
