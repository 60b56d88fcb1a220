-- ===== src/Ltl/Tests.antt =====
-- The theorems of `Ltl` at a small domain: a function is a number, times and states are numbers, and
-- the thunk of `k` returns whether the position is below `k`.
use bombadil.Common.{ℕ, suc, ◌+◌, true, false, not, none, [], ◌∷◌, map, ◌≡◌, refl, ltb, ◌==◌}
use bombadil.Common.Run.{ok, Returns}
use bombadil.Ltl.Domain.{Domain}
use bombadil.Ltl.Formula.{Formula}
use bombadil.Ltl.Syntax.{Syntax, go, nnf}
use bombadil.Ltl.Violation.{Violation}
use bombadil.Ltl.Value.{Value, Residual, Derived, assume_true}
use bombadil.Ltl.Combine.{evaluate_and_always}
use bombadil.Ltl.Attach.{attach_to_violation}
use bombadil.Ltl.Eval.{EvaluateThunk, evaluate, step}
use bombadil.Ltl.Stop.{stop_default}
use bombadil.Ltl.Violations.{
  WrapsOnce, evaluate_and_always-WrapsOnce, states, states-attach_to_violation,
}
use bombadil.Ltl.Semantics.{Meaning, holds, residual_holds}
use bombadil.Ltl.Semantics.Says.{Says}
use bombadil.Ltl.Semantics.Evaluate.{Answers, evaluate-Says}
use bombadil.Ltl.Semantics.Step.{step-Says}
use bombadil.Ltl.Semantics.Stop.{Decides, stop_default-Decides}
use bombadil.Ltl.Semantics.Trace.{verdict, verdict-holds}
use bombadil.Ltl.Semantics.Nnf.{
  Thunks, thunk_formula, thunk_meaning, syntax_holds, go-holds, verdict-nnf,
}

abbrev small : Domain
small = record {
  Function = ℕ;
  Time = ℕ;
  Duration = ℕ;
  State = ℕ;
  before = ltb;
  add = λ a b. a + b;
  default = 0;
  merge = λ a b. a + b;
  is_empty = λ s. s == 0;
}

abbrev below : Thunks small
below i k = Syntax.pure (ltb i k) "below"

abbrev meaning : Meaning small
meaning = thunk_meaning below

abbrev read_thunk : ℕ → EvaluateThunk small ℕ ℕ
read_thunk i k negated calls = ok (meaning i k negated, 1) (calls + 1)

read_thunk-Answers : Answers read_thunk meaning
read_thunk-Answers i k negated calls = record {
  value = (meaning i k negated, 1);
  host = calls + 1;
  runs = refl;
  meets = refl;
}

-- "at every state: not below 1, or eventually not below 3".
abbrev sample : Syntax small
sample =
    Syntax.always
      (Syntax.implies (Syntax.thunk 1) (Syntax.not (Syntax.always (Syntax.thunk 3) none))) none

sample_runs : verdict read_thunk 1 (nnf sample) 10 (20 ∷ 30 ∷ 40 ∷ []) 0 ≡ ok true 11
unfolding verdict evaluate step nnf stop_default thunk_formula
sample_runs = refl

sample_fails : verdict read_thunk 1 (nnf sample) 10 (20 ∷ []) 0 ≡ ok false 5
unfolding verdict evaluate step nnf stop_default thunk_formula
sample_fails = refl

verdict-nnf_example :
    Returns
      (verdict read_thunk 1 (nnf sample) 10 (20 ∷ []))
      (λ b. b ≡ syntax_holds below 1 sample 0 1)
verdict-nnf_example =
    verdict-nnf below read_thunk read_thunk-Answers 1 sample 10 (20 ∷ [])
      (refl, ((λ i. tt), (refl, (λ i. tt))))

-- `next` is weak at the last state.
abbrev later : Formula small
later = Formula.next (Formula.thunk 0 false)

verdict-holds_example :
    Returns (verdict read_thunk 1 later 10 []) (λ b. b ≡ holds meaning 1 later 0 0)
unfolding thunk_formula
verdict-holds_example = verdict-holds read_thunk 1 meaning read_thunk-Answers later 10 [] (λ i. tt)

evaluate-Says_example :
    Returns (evaluate (read_thunk 0) 1 later 10) (λ v. Says meaning 1 v 0 (holds meaning 1 later 0))
unfolding thunk_formula
evaluate-Says_example = evaluate-Says read_thunk meaning read_thunk-Answers 1 later 0 10 (λ i. tt)

abbrev pending : Residual small
pending = Residual.derived (Derived.once 10 (Formula.thunk 0 false)) assume_true

step-Says_example :
    Returns
      (step (read_thunk 1) 1 pending 20)
      (λ v. Says meaning 1 v 1 (λ n. residual_holds meaning 1 pending 1 (suc n)))
unfolding thunk_formula
step-Says_example = step-Says read_thunk meaning read_thunk-Answers 1 1 20 pending (λ i. tt)

stop_default-Decides_example :
    Decides (stop_default pending 20) (residual_holds meaning 1 pending 1 0)
stop_default-Decides_example = stop_default-Decides meaning 1 1 20 pending

go-holds_example : holds meaning 1 (go sample true) 2 0 ≡ not (syntax_holds below 1 sample 2 0)
go-holds_example = go-holds below 1 sample true (refl, ((λ i. tt), (refl, (λ i. tt)))) 2 0

evaluate_and_always-WrapsOnce_example : WrapsOnce later 10 none (
    evaluate_and_always later 10 none 20 30
      (Value.residual pending)
      (Value.false_with (Violation.false_at 30 "x" 1) none))
evaluate_and_always-WrapsOnce_example =
    evaluate_and_always-WrapsOnce later 10 none 20 30 (Value.residual pending)
      (Value.false_with (Violation.false_at 30 "x" 1) none)

abbrev shown : Violation small
shown =
    Violation.and (Violation.false_at 1 "a" 2)
      (Violation.implies later (Violation.false_at 1 "b" 3) 4)

states-attach_to_violation_example :
    states (attach_to_violation shown 5) ≡ map (λ s. s + 5) (states shown)
states-attach_to_violation_example = states-attach_to_violation shown 5
