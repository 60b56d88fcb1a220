-- ===== src/Ltl/Semantics/Step.antt =====
-- `Evaluator::step` of lib/bombadil-ltl/src/eval.rs gives a value that says what the residual says.
use bombadil.Common.{ℕ, suc, none, some, refl}
use bombadil.Common.Run.{Returns, return-Returns}
use bombadil.Ltl.Domain.{Domain}
use bombadil.Ltl.Value.{Value, Residual, Derived, Leaning, assume_true, assume_false}
use bombadil.Ltl.Combine.{
  evaluate_and, evaluate_or, evaluate_implies, evaluate_and_always, evaluate_or_eventually,
}
use bombadil.Ltl.Eval.{EvaluateThunk, step_derived, step}
use bombadil.Ltl.Semantics.{
  Meaning, derived_holds, residual_holds, value_holds, DerivedFits, ResidualFits,
}
use bombadil.Ltl.Semantics.Says.{Says}
use bombadil.Ltl.Semantics.Combine.{evaluate_and-Says, evaluate_or-Says, evaluate_implies-Says}
use bombadil.Ltl.Semantics.Carried.{evaluate_and_always-Says, evaluate_or_eventually-Says}
use bombadil.Ltl.Semantics.Evaluate.{
  Answers, both-Says, evaluate-Says, evaluate_always-Says, evaluate_eventually-Says,
}

module _ {D : Domain} {W E : Type 0} (evaluate_thunk : ℕ → EvaluateThunk D W E)
    (meaning : Meaning D) (answers : Answers evaluate_thunk meaning) (fuel : ℕ) (i : ℕ)
    (time : D.Time) where
  -- The value is fit for going on and says what `r` says where the state `i` is one of those left.
  abbrev Resumes : Residual D → Value D → Type 0
  Resumes r v = Says meaning fuel v i (λ n. residual_holds meaning fuel r i (suc n))

  step_derived-Says :
      (d : Derived D) (l : Leaning D)
      → DerivedFits meaning fuel d l
      → Returns
          (step_derived (evaluate_thunk i) fuel d time)
          (λ v. Says meaning fuel v i (derived_holds meaning fuel d i))
  unfolding step_derived derived_holds
  step_derived-Says (Derived.once _ f) assume_true h =
      evaluate-Says evaluate_thunk meaning answers fuel f i time h
  step_derived-Says (Derived.once _ f) (assume_false _) h = absurd h
  step_derived-Says (Derived.always start none f) assume_true h =
      evaluate_always-Says evaluate_thunk meaning answers fuel _ f start time i h.1
        (evaluate-Says evaluate_thunk meaning answers fuel f i time h.1)
  step_derived-Says (Derived.always start (some _) f) assume_true h = cc
  step_derived-Says (Derived.always start end f) (assume_false _) h = absurd h
  step_derived-Says (Derived.eventually start end f) assume_true h = absurd h
  step_derived-Says (Derived.eventually start none f) (assume_false _) h =
      evaluate_eventually-Says evaluate_thunk meaning answers fuel _ f start time i h.1
        (evaluate-Says evaluate_thunk meaning answers fuel f i time h.1)
  step_derived-Says (Derived.eventually start (some _) f) (assume_false _) h = cc

  -- Where every thunk returns what `meaning` gives it and the residual fits (it has no time bounds,
  -- and its thunks nest at most `fuel` deep), `step` returns, and its value says of every number of
  -- later states what the residual says with the state `i` before them.
  pub step-Says :
      (r : Residual D)
      → ResidualFits meaning fuel r
      → Returns (step (evaluate_thunk i) fuel r time) (Resumes r)
  unfolding step residual_holds value_holds
  step-Says (Residual.true_with _) h = return-Returns _ _ (tt, λ n. refl)
  step-Says (Residual.false_with _) h = return-Returns _ _ (tt, λ n. refl)
  step-Says (Residual.derived d l) h = step_derived-Says d l h
  step-Says (Residual.and l r) h =
      both-Says evaluate_thunk meaning answers fuel i _ _ _ _ evaluate_and _
        (λ u v. evaluate_and-Says meaning fuel u v i _ _) (step-Says l h.0) (step-Says r h.1)
  step-Says (Residual.or l r) h =
      both-Says evaluate_thunk meaning answers fuel i _ _ _ _ evaluate_or _
        (λ u v. evaluate_or-Says meaning fuel u v i _ _) (step-Says l h.0) (step-Says r h.1)
  step-Says (Residual.implies f l r) h =
      both-Says evaluate_thunk meaning answers fuel i _ _ _ _ (evaluate_implies f) _
        (λ u v hu hv. evaluate_implies-Says meaning fuel u v i _ _ hu hv f) (step-Says l h.0)
        (step-Says r h.1)
  step-Says (Residual.or_eventually f start none l r) h =
      both-Says evaluate_thunk meaning answers fuel i _ _ _ _
        (evaluate_or_eventually f start none time) _
        (λ u v hu hv. evaluate_or_eventually-Says meaning fuel u v i _ _ hu hv f start time)
        (step-Says l h.1) (step-Says r h.2)
  step-Says (Residual.or_eventually f start (some _) l r) h = cc
  step-Says (Residual.and_always f start none onset l r) h =
      both-Says evaluate_thunk meaning answers fuel i _ _ _ _
        (evaluate_and_always f start none onset time) _
        (λ u v hu hv. evaluate_and_always-Says meaning fuel u v i _ _ hu hv f start onset time h.1)
        (step-Says l h.2) (step-Says r h.3)
  step-Says (Residual.and_always f start (some _) onset l r) h = cc
