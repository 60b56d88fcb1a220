-- ===== src/Ltl/Semantics/Trace.antt =====
-- A whole test of one formula: `Evaluator::evaluate` at the first state, `Evaluator::step` at each
-- later one while the formula is pending, and `stop_default` where the trace ends.
use bombadil.Common.{ℕ, suc, Bool, true, false, List, [], ◌∷◌, ◌≡◌, refl, ◌∙◌, length}
use bombadil.Common.Run.{Comp, Returns, return, return-Returns, >>=-Returns, ◌>>=◌}
use bombadil.Ltl.Domain.{Domain}
use bombadil.Ltl.Formula.{Formula}
use bombadil.Ltl.Value.{Value}
use bombadil.Ltl.Stop.{stop_default}
use bombadil.Ltl.Eval.{EvaluateThunk, evaluate, step}
use bombadil.Ltl.Semantics.{Meaning, holds, value_holds, Fits, ValueFits}
use bombadil.Ltl.Semantics.Evaluate.{Answers, evaluate-Says}
use bombadil.Ltl.Semantics.Step.{step-Says}
use bombadil.Ltl.Semantics.Stop.{outcome, outcome-Decides, stop_default-Decides}

module _ {D : Domain} {W E : Type 0} (evaluate_thunk : ℕ → EvaluateThunk D W E) (fuel : ℕ) where
  -- Position `i` is the next state, and `last` the time of the latest one.
  unfoldable pub conclude : ℕ → D.Time → List D.Time → Value D → Comp W E Bool
  conclude i last times (Value.true_with _) = return true
  conclude i last times (Value.false_with _ _) = return false
  conclude i last [] (Value.residual r) = return (outcome (stop_default r last))
  conclude i last (time ∷ times) (Value.residual r) =
      step (evaluate_thunk i) fuel r time >>= conclude (suc i) time times

  -- The verdict on a formula over states at `time` and then at `times`.
  unfoldable pub verdict : Formula D → D.Time → List D.Time → Comp W E Bool
  unfolding conclude
  verdict f time times = evaluate (evaluate_thunk 0) fuel f time >>= conclude 1 time times

  module _ (meaning : Meaning D) (answers : Answers evaluate_thunk meaning) where
    conclude-holds :
        (times : List D.Time) (i : ℕ) (last : D.Time) (v : Value D)
        → ValueFits meaning fuel v
        → Returns (conclude i last times v) (λ b. b ≡ value_holds meaning fuel v i (length times))
    unfolding conclude value_holds
    conclude-holds [] i last (Value.true_with _) h = return-Returns _ _ refl
    conclude-holds [] i last (Value.false_with _ _) h = return-Returns _ _ refl
    conclude-holds [] i last (Value.residual r) h =
        return-Returns _ _ (outcome-Decides _ _ (stop_default-Decides meaning fuel i last r))
    conclude-holds (_ ∷ _) i last (Value.true_with _) h = return-Returns _ _ refl
    conclude-holds (_ ∷ _) i last (Value.false_with _ _) h = return-Returns _ _ refl
    conclude-holds (time ∷ times) i last (Value.residual r) h =
        >>=-Returns _ _ _ _ (step-Says evaluate_thunk meaning answers fuel i time r h) λ v s w.
          let y = conclude-holds times (suc i) time v s.0 w in
          record {
            value = y.value;
            host = y.host;
            runs = y.runs;
            meets = y.meets ∙ s.1 (length times);
          }

    -- Where every thunk returns what `meaning` gives it, no operator has a time bound and thunks nest
    -- at most `fuel` deep, a test of a formula returns, and its verdict is what the formula says of
    -- the trace.
    pub verdict-holds :
        (f : Formula D) (time : D.Time) (times : List D.Time)
        → Fits meaning fuel f
        → Returns (verdict f time times) (λ b. b ≡ holds meaning fuel f 0 (length times))
    unfolding verdict
    verdict-holds f time times h =
        >>=-Returns _ _ _ _ (evaluate-Says evaluate_thunk meaning answers fuel f 0 time h) λ v s w.
          let y = conclude-holds times 1 time v s.0 w in
          record {
            value = y.value;
            host = y.host;
            runs = y.runs;
            meets = y.meets ∙ s.1 (length times);
          }
