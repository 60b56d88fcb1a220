-- ===== src/Ltl/Eval.antt =====
-- lib/bombadil-ltl/src/eval.rs: `Evaluator::evaluate` and `Evaluator::step`. The closure
-- `evaluate_thunk` is a computation in the host. A thunk gives a formula that may hold thunks
-- again, with no bound in the source: fuel counts the thunks that are entered inside one another.
use mathlib.Core.Option
use bombadil.Common.{ℕ, zero, suc, Bool, true, false, Option, none, if◌then◌else◌}
use bombadil.Common.Run.{Comp, return, ◌>>=◌, out_of_fuel}
use bombadil.Ltl.Domain.{Domain}
use bombadil.Ltl.Formula.{Formula}
use bombadil.Ltl.Violation.{Violation, timed_out}
use bombadil.Ltl.Value.{Value, Residual, Derived, assume_true}
use bombadil.Ltl.Combine.{
  evaluate_and, evaluate_or, evaluate_implies, is_over, always_value, eventually_value,
  evaluate_and_always, evaluate_or_eventually,
}
use bombadil.Ltl.Attach.{attach_state}

abbrev pub EvaluateThunk : Domain → Type 0 → Type 0 → Type 0
EvaluateThunk D W E = D.Function → Bool → Comp W E (Formula D × D.State)

module _ {D : Domain} {W E : Type 0} where
  -- The argument `sub` is the call `self.evaluate(&subformula, time)`, made after the early return.
  unfoldable pub evaluate_always :
      Comp W E (Value D) → Formula D → D.Time → Option D.Time → D.Time → Comp W E (Value D)
  unfolding is_over always_value
  evaluate_always sub subformula start end time =
      if is_over D end time
      then return (Value.true_with D.default)
      else sub >>= λ value. return (always_value subformula start end time value)

  unfoldable pub evaluate_eventually :
      Comp W E (Value D) → Formula D → D.Time → Option D.Time → D.Time → Comp W E (Value D)
  unfolding is_over eventually_value
  evaluate_eventually sub subformula start end time =
      if is_over D end time
      then return (Value.false_with (Violation.eventually subformula (timed_out time)) none)
      else sub >>= λ value. return (eventually_value subformula start end value)

  module _ (evaluate_thunk : EvaluateThunk D W E) where
    unfoldable pub evaluate : ℕ → Formula D → D.Time → Comp W E (Value D)
    unfolding evaluate_always evaluate_eventually evaluate_and evaluate_or evaluate_implies
        attach_state
    evaluate fuel (Formula.pure true pretty) time = return (Value.true_with D.default)
    evaluate fuel (Formula.pure false pretty) time =
        return (Value.false_with (Violation.false_at time pretty D.default) none)
    evaluate zero (Formula.thunk function negated) time = λ _. out_of_fuel
    evaluate (suc fuel) (Formula.thunk function negated) time =
        evaluate_thunk function negated >>= λ (formula, state).
        evaluate fuel formula time >>= λ value. return (attach_state value state)
    evaluate fuel (Formula.and left right) time =
        evaluate fuel left time >>= λ l. evaluate fuel right time >>= λ r. return (evaluate_and l r)
    evaluate fuel (Formula.or left right) time =
        evaluate fuel left time >>= λ l. evaluate fuel right time >>= λ r. return (evaluate_or l r)
    evaluate fuel (Formula.implies left right) time = evaluate fuel left time >>= λ l.
        evaluate fuel right time >>= λ r. return (evaluate_implies left l r)
    evaluate fuel (Formula.next formula) time =
        return (Value.residual (Residual.derived (Derived.once time formula) assume_true))
    evaluate fuel (Formula.always formula bound) time =
        evaluate_always (evaluate fuel formula time) formula time (Option.map (D.add time) bound)
          time
    evaluate fuel (Formula.eventually formula bound) time =
        evaluate_eventually (evaluate fuel formula time) formula time
          (Option.map (D.add time) bound) time

    -- The match on `Residual::Derived`.
    unfoldable pub step_derived : ℕ → Derived D → D.Time → Comp W E (Value D)
    unfolding evaluate evaluate_always evaluate_eventually
    step_derived fuel (Derived.once start subformula) time = evaluate fuel subformula time
    step_derived fuel (Derived.always start end subformula) time =
        evaluate_always (evaluate fuel subformula time) subformula start end time
    step_derived fuel (Derived.eventually start end subformula) time =
        evaluate_eventually (evaluate fuel subformula time) subformula start end time

    unfoldable pub step : ℕ → Residual D → D.Time → Comp W E (Value D)
    unfolding step_derived evaluate_and evaluate_or evaluate_implies evaluate_and_always
        evaluate_or_eventually
    step fuel (Residual.true_with state) time = return (Value.true_with state)
    step fuel (Residual.false_with violation) time = return (Value.false_with violation none)
    step fuel (Residual.and left right) time =
        step fuel left time >>= λ l. step fuel right time >>= λ r. return (evaluate_and l r)
    step fuel (Residual.or left right) time =
        step fuel left time >>= λ l. step fuel right time >>= λ r. return (evaluate_or l r)
    step fuel (Residual.implies left_formula left right) time = step fuel left time >>= λ l.
        step fuel right time >>= λ r. return (evaluate_implies left_formula l r)
    step fuel (Residual.derived derivation leaning) time = step_derived fuel derivation time
    step fuel (Residual.or_eventually subformula start end left right) time =
        step fuel left time >>= λ l.
        step fuel right time >>= λ r. return (evaluate_or_eventually subformula start end time l r)
    step fuel (Residual.and_always subformula start end onset left right) time =
        step fuel left time >>= λ l. step fuel right time >>= λ r.
        return (evaluate_and_always subformula start end onset time l r)
