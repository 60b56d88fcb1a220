-- ===== src/Ltl/Attach.antt =====
-- lib/bombadil-ltl/src/eval.rs: the state that a thunk has read is merged into the value of its
-- formula. The source walks the tree by a queue of mutable references to disjoint nodes, each of
-- which it writes once, so that the order of the walk does not show; here it is a recursion.
use bombadil.Common.{if◌then◌else◌}
use bombadil.Ltl.Domain.{Domain}
use bombadil.Ltl.Violation.{Violation}
use bombadil.Ltl.Value.{Value, Residual}

module _ {D : Domain} where
  unfoldable pub attach_to_violation : Violation D → D.State → Violation D
  attach_to_violation (Violation.false_at time condition state) resolved =
      Violation.false_at time condition (D.merge state resolved)
  attach_to_violation (Violation.implies left right state) resolved =
      Violation.implies left (attach_to_violation right resolved) (D.merge state resolved)
  attach_to_violation (Violation.and left right) resolved =
      Violation.and (attach_to_violation left resolved) (attach_to_violation right resolved)
  attach_to_violation (Violation.or left right) resolved =
      Violation.or (attach_to_violation left resolved) (attach_to_violation right resolved)
  attach_to_violation (Violation.always violation subformula start end time) resolved =
      Violation.always (attach_to_violation violation resolved) subformula start end time
  attach_to_violation (Violation.eventually subformula reason) resolved =
      Violation.eventually subformula reason

  unfoldable pub attach_to_residual : Residual D → D.State → Residual D
  unfolding attach_to_violation
  attach_to_residual (Residual.true_with state) resolved =
      Residual.true_with (D.merge state resolved)
  attach_to_residual (Residual.false_with violation) resolved =
      Residual.false_with (attach_to_violation violation resolved)
  attach_to_residual (Residual.and left right) resolved =
      Residual.and (attach_to_residual left resolved) (attach_to_residual right resolved)
  attach_to_residual (Residual.or left right) resolved =
      Residual.or (attach_to_residual left resolved) (attach_to_residual right resolved)
  attach_to_residual (Residual.or_eventually subformula start end left right) resolved =
      Residual.or_eventually subformula start end (attach_to_residual left resolved)
        (attach_to_residual right resolved)
  attach_to_residual (Residual.and_always subformula start end onset left right) resolved =
      Residual.and_always subformula start end onset (attach_to_residual left resolved)
        (attach_to_residual right resolved)
  attach_to_residual (Residual.implies left_formula left right) resolved =
      Residual.implies left_formula (attach_to_residual left resolved)
        (attach_to_residual right resolved)
  attach_to_residual (Residual.derived derivation leaning) resolved =
      Residual.derived derivation leaning

  -- The match of `attach_state`, which its test for an empty state guards.
  unfoldable pub attach_to_value : Value D → D.State → Value D
  unfolding attach_to_violation attach_to_residual
  attach_to_value (Value.true_with state) resolved = Value.true_with (D.merge state resolved)
  attach_to_value (Value.false_with violation continuation) resolved =
      Value.false_with (attach_to_violation violation resolved) continuation
  attach_to_value (Value.residual residual) resolved =
      Value.residual (attach_to_residual residual resolved)

  unfoldable pub attach_state : Value D → D.State → Value D
  unfolding attach_to_value
  attach_state value resolved =
      if D.is_empty resolved then value else attach_to_value value resolved
