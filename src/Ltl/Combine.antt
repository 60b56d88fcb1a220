-- ===== src/Ltl/Combine.antt =====
-- lib/bombadil-ltl/src/eval.rs: the values of `and`, `or`, `implies`, and of a temporal operator
-- whose subformula has been evaluated. The match arms stand in the source's order.
use mathlib.Core.Option
use bombadil.Common.{Bool, false, Option, none, some, if◌then◌else◌}
use bombadil.Ltl.Domain.{Domain}
use bombadil.Ltl.Formula.{Formula}
use bombadil.Ltl.Violation.{Violation, timed_out, test_ended}
use bombadil.Ltl.Value.{Value, Residual, Derived, assume_true, assume_false}

unfoldable pub combine_options : {T : Type 0} → Option T → Option T → (T → T → T) → Option T
combine_options (some left) (some right) combine = some (combine left right)
combine_options (some value) none combine = some value
combine_options none (some value) combine = some value
combine_options none none combine = none

-- `if let Some(end) = end && end < time`.
unfoldable pub is_over : (D : Domain) → Option D.Time → D.Time → Bool
is_over D none time = false
is_over D (some end) time = D.before end time

module _ {D : Domain} where
  -- What is left of a conjunction of which one side is false and the other is pending.
  unfoldable pub and_continuation : Residual D → Option (Residual D) → Residual D
  and_continuation residual (some continuation) = Residual.and residual continuation
  and_continuation residual none = residual

  -- The last two arms before the end are one arm of the source, with two patterns.
  unfoldable pub evaluate_and : Value D → Value D → Value D
  unfolding combine_options and_continuation
  evaluate_and (Value.true_with left) (Value.true_with right) = Value.true_with (D.merge left right)
  evaluate_and (Value.true_with state) (Value.residual residual) =
      Value.residual (Residual.and (Residual.true_with state) residual)
  evaluate_and (Value.residual residual) (Value.true_with state) =
      Value.residual (Residual.and residual (Residual.true_with state))
  evaluate_and (Value.true_with _) right = right
  evaluate_and left (Value.true_with _) = left
  evaluate_and (Value.false_with v_left c_left) (Value.false_with v_right c_right) =
      Value.false_with (Violation.and v_left v_right) (combine_options c_left c_right Residual.and)
  evaluate_and (Value.residual residual) (Value.false_with violation continuation) =
      Value.false_with violation (some (and_continuation residual continuation))
  evaluate_and (Value.false_with violation continuation) (Value.residual residual) =
      Value.false_with violation (some (and_continuation residual continuation))
  evaluate_and (Value.residual left) (Value.residual right) =
      Value.residual (Residual.and left right)

  unfoldable pub evaluate_or : Value D → Value D → Value D
  unfolding combine_options
  evaluate_or (Value.false_with v_left c_left) (Value.false_with v_right c_right) =
      Value.false_with (Violation.or v_left v_right) (combine_options c_left c_right Residual.or)
  evaluate_or (Value.true_with left) (Value.true_with right) = Value.true_with (D.merge left right)
  evaluate_or (Value.true_with state) _ = Value.true_with state
  evaluate_or _ (Value.true_with state) = Value.true_with state
  evaluate_or left (Value.false_with _ _) = left
  evaluate_or (Value.false_with _ _) right = right
  evaluate_or (Value.residual left) (Value.residual right) = Value.residual (Residual.or left right)

  unfoldable pub evaluate_implies : Formula D → Value D → Value D → Value D
  evaluate_implies left_formula (Value.false_with _ _) _ = Value.true_with D.default
  evaluate_implies left_formula (Value.true_with left) (Value.false_with violation continuation) =
      Value.false_with (Violation.implies left_formula violation left)
        (Option.map (Residual.implies left_formula (Residual.true_with left)) continuation)
  evaluate_implies left_formula (Value.true_with left) (Value.true_with right) =
      Value.true_with (D.merge left right)
  evaluate_implies left_formula (Value.true_with left) (Value.residual right) =
      Value.residual (Residual.implies left_formula (Residual.true_with left) right)
  evaluate_implies left_formula (Value.residual _) (Value.true_with state) = Value.true_with state
  evaluate_implies left_formula (Value.residual left) (Value.false_with violation _) =
      Value.residual (Residual.implies left_formula left (Residual.false_with violation))
  evaluate_implies left_formula (Value.residual left) (Value.residual right) =
      Value.residual (Residual.implies left_formula left right)

  abbrev pub always_residual : Formula D → D.Time → Option D.Time → Residual D
  always_residual subformula start end =
      Residual.derived (Derived.always start end subformula) assume_true

  -- `evaluate_always` from the value of the subformula on.
  unfoldable pub always_value : Formula D → D.Time → Option D.Time → D.Time → Value D → Value D
  always_value subformula start end time (Value.true_with _) =
      Value.residual (always_residual subformula start end)
  always_value subformula start end time (Value.false_with violation (some inner)) =
      Value.false_with (Violation.always violation subformula start end time) (
        some (
          Residual.and_always subformula start end time inner
            (always_residual subformula start end)))
  always_value subformula start end time (Value.false_with violation none) =
      Value.false_with (Violation.always violation subformula start end time)
        (some (always_residual subformula start end))
  always_value subformula start end time (Value.residual inner) =
      Value.residual
        (Residual.and_always subformula start end time inner (always_residual subformula start end))

  unfoldable pub pending_residual : Value D → Option (Residual D)
  pending_residual (Value.residual residual) = some residual
  pending_residual (Value.false_with _ (some continuation)) = some continuation
  pending_residual _ = none

  -- The loop `while let Violation::Always { violation: inner, .. } = current`.
  unfoldable pub peel : Violation D → Violation D
  peel (Violation.always inner _ _ _ _) = peel inner
  peel violation = violation

  -- The same loop with `last_time`, which is the time of the innermost wrapper.
  unfoldable pub peel_time : D.Time → Violation D → D.Time
  peel_time last_time (Violation.always inner _ _ _ inner_time) = peel_time inner_time inner
  peel_time last_time _ = last_time

  -- The continuation of a violated `AndAlways`.
  unfoldable pub and_always_continuation :
      Formula D → D.Time → Option D.Time → D.Time → Value D → Value D → Residual D
  unfolding combine_options pending_residual
  and_always_continuation subformula start end onset left right =
      elim (combine_options (pending_residual left) (pending_residual right) Residual.and) [
        | some inner ↦
            Residual.and_always subformula start end onset inner
              (always_residual subformula start end)
        | none ↦ always_residual subformula start end
      ]

  -- `evaluate_and_always` past its deadline test. The last arm of the source's first match takes
  -- the pairs with a violation, and its second match tries the left one first.
  unfoldable pub and_always_value :
      Formula D → D.Time → Option D.Time → D.Time → D.Time → Value D → Value D → Value D
  unfolding and_always_continuation peel peel_time
  and_always_value subformula start end onset time (Value.true_with _) (Value.true_with _) =
      Value.true_with D.default
  and_always_value subformula start end onset time (Value.residual left) (Value.true_with _) =
      Value.residual
        (Residual.and_always subformula start end onset left (Residual.true_with D.default))
  and_always_value subformula start end onset time (Value.true_with _) (Value.residual right) =
      Value.residual
        (Residual.and_always subformula start end time (Residual.true_with D.default) right)
  and_always_value subformula start end onset time (Value.residual left) (Value.residual right) =
      Value.residual (Residual.and_always subformula start end onset left right)
  and_always_value subformula start end onset time (Value.false_with v c) right =
      Value.false_with (Violation.always (peel v) subformula start end onset)
        (some (and_always_continuation subformula start end onset (Value.false_with v c) right))
  and_always_value subformula start end onset time left (Value.false_with v c) =
      Value.false_with (Violation.always (peel v) subformula start end (peel_time time v))
        (some (and_always_continuation subformula start end onset left (Value.false_with v c)))

  unfoldable pub evaluate_and_always :
      Formula D → D.Time → Option D.Time → D.Time → D.Time → Value D → Value D → Value D
  unfolding is_over and_always_value
  evaluate_and_always subformula start end onset time left right =
      if is_over D end time
      then Value.true_with D.default
      else and_always_value subformula start end onset time left right

  abbrev eventually_residual : Formula D → D.Time → Option D.Time → Residual D
  eventually_residual subformula start end =
      Residual.derived (Derived.eventually start end subformula)
        (assume_false (Violation.eventually subformula test_ended))

  -- `evaluate_eventually` from the value of the subformula on.
  unfoldable pub eventually_value : Formula D → D.Time → Option D.Time → Value D → Value D
  eventually_value subformula start end (Value.true_with state) = Value.true_with state
  eventually_value subformula start end (Value.false_with _ _) =
      Value.residual (eventually_residual subformula start end)
  eventually_value subformula start end (Value.residual left) =
      Value.residual (
        Residual.or_eventually subformula start end left (eventually_residual subformula start end))

  -- `evaluate_or_eventually` past its deadline test.
  unfoldable pub or_eventually_value :
      Formula D → D.Time → Option D.Time → Value D → Value D → Value D
  or_eventually_value subformula start end (Value.true_with state) _ = Value.true_with state
  or_eventually_value subformula start end _ (Value.true_with state) = Value.true_with state
  or_eventually_value subformula start end (Value.false_with _ _) (Value.false_with right _) =
      Value.false_with right none
  or_eventually_value subformula start end (Value.false_with _ _) (Value.residual residual) =
      Value.residual residual
  or_eventually_value subformula start end (Value.residual residual) (Value.false_with _ _) =
      Value.residual residual
  or_eventually_value subformula start end (Value.residual left) (Value.residual right) =
      Value.residual (Residual.or_eventually subformula start end left right)

  unfoldable pub evaluate_or_eventually :
      Formula D → D.Time → Option D.Time → D.Time → Value D → Value D → Value D
  unfolding is_over or_eventually_value
  evaluate_or_eventually subformula start end time left right =
      if is_over D end time
      then Value.false_with (Violation.eventually subformula (timed_out time)) none
      else or_eventually_value subformula start end left right
