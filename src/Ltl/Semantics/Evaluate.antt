-- ===== src/Ltl/Semantics/Evaluate.antt =====
-- `Evaluator::evaluate` gives a value that says what the formula says.
use mathlib.Core.Path.{subst}
use bombadil.Common.{ℕ, zero, suc, Bool, true, false, none, some, ◌≡◌, refl, sym}
use bombadil.Common.Run.{Comp, Returns, return, return-Returns, >>=-Returns, ◌>>=◌}
use bombadil.Ltl.Domain.{Domain}
use bombadil.Ltl.Formula.{Formula}
use bombadil.Ltl.Value.{Value, Residual, Derived, assume_true}
use bombadil.Ltl.Combine.{evaluate_and, evaluate_or, evaluate_implies}
use bombadil.Ltl.Eval.{EvaluateThunk, evaluate, evaluate_always, evaluate_eventually}
use bombadil.Ltl.Semantics.{Meaning, globally, finally, holds, value_holds, Fits}
use bombadil.Ltl.Semantics.Says.{Says}
use bombadil.Ltl.Semantics.Combine.{evaluate_and-Says, evaluate_or-Says, evaluate_implies-Says}
use bombadil.Ltl.Semantics.Temporal.{always_value-Says, eventually_value-Says}
use bombadil.Ltl.Semantics.Attach.{attach_state-Says}
use bombadil.Ltl.Semantics.Fuel.{Says-suc}

-- At each position every thunk returns, without an error, the formula that `meaning` gives it.
abbrev pub Answers : {D : Domain} {W E : Type 0} → (ℕ → EvaluateThunk D W E) → Meaning D → Type 0
Answers evaluate_thunk meaning =
    (i : ℕ) (function : _) (negated : _)
    → Returns (evaluate_thunk i function negated) (λ p. p.0 ≡ meaning i function negated)

module _ {D : Domain} {W E : Type 0} (evaluate_thunk : ℕ → EvaluateThunk D W E)
    (meaning : Meaning D) (answers : Answers evaluate_thunk meaning) where
  module _ (fuel : ℕ) (sub : Comp W E (Value D)) (f : Formula D) (start time : D.Time) (i : ℕ)
      (hf : Fits meaning fuel f)
      (hs : Returns sub (λ v. Says meaning fuel v i (holds meaning fuel f i))) where
    pub evaluate_always-Says :
        Returns
          (evaluate_always sub f start none time)
          (λ v. Says meaning fuel v i (globally (holds meaning fuel f) i))
    unfolding evaluate_always
    evaluate_always-Says =
        >>=-Returns sub _ _ _ hs
          (λ v h. return-Returns _ _ (always_value-Says meaning fuel f start time v i hf h))

    pub evaluate_eventually-Says :
        Returns
          (evaluate_eventually sub f start none time)
          (λ v. Says meaning fuel v i (finally (holds meaning fuel f) i))
    unfolding evaluate_eventually
    evaluate_eventually-Says =
        >>=-Returns sub _ _ _ hs
          (λ v h. return-Returns _ _ (eventually_value-Says meaning fuel f start v i hf h))

  -- Two values one after the other, and what is made of them.
  pub both-Says :
      (fuel : ℕ) (i : ℕ) (l r : Comp W E (Value D)) (p q : ℕ → Bool)
      (combine : Value D → Value D → Value D) (s : ℕ → Bool)
      → ((u v : Value D)
          → Says meaning fuel u i p
          → Says meaning fuel v i q
          → Says meaning fuel (combine u v) i s)
      → Returns l (λ v. Says meaning fuel v i p)
      → Returns r (λ v. Says meaning fuel v i q)
      → Returns (l >>= λ u. r >>= λ v. return (combine u v)) (λ v. Says meaning fuel v i s)
  both-Says fuel i l r p q combine s law hl hr =
      >>=-Returns l _ _ _ hl
        λ u hu. >>=-Returns r _ _ _ hr λ v hv. return-Returns _ _ (law u v hu hv)

  next-Says :
      (fuel : ℕ) (f : Formula D) (i : ℕ) (time : D.Time)
      → Fits meaning fuel f
      → Says meaning fuel
          (Value.residual (Residual.derived (Derived.once time f) assume_true))
          i
          (holds meaning fuel (Formula.next f) i)
  unfolding holds value_holds
  next-Says fuel f i time h = (h, elim [ zero ↦ refl | suc n ↦ refl ])

  thunk-Says :
      (fuel : ℕ) (function : D.Function) (negated : Bool) (i : ℕ) (time : D.Time)
      → ((f : Formula D)
          → f ≡ meaning i function negated
          → Returns
              (evaluate (evaluate_thunk i) fuel f time)
              (λ v. Says meaning fuel v i (holds meaning fuel (meaning i function negated) i)))
      → Returns (evaluate (evaluate_thunk i) (suc fuel) (Formula.thunk function negated) time) (λ v.
        Says meaning (suc fuel) v i (holds meaning (suc fuel) (Formula.thunk function negated) i))
  unfolding evaluate holds
  thunk-Says fuel function negated i time inner =
      >>=-Returns (evaluate_thunk i function negated) _ _ _ (answers i function negated)
        λ (f, state) e.
          >>=-Returns (evaluate (evaluate_thunk i) fuel f time) _ _ _ (inner f e) λ v h.
            return-Returns _ _
              (attach_state-Says meaning (suc fuel) v state i _ (Says-suc meaning fuel v i _ h))

  -- Where every thunk returns what `meaning` gives it, no operator has a time bound and thunks nest
  -- at most `fuel` deep, `evaluate` returns at position `i`, and its value says of every number of
  -- later states what the formula says.
  pub evaluate-Says :
      (fuel : ℕ) (f : Formula D) (i : ℕ) (time : D.Time)
      → Fits meaning fuel f
      → Returns
          (evaluate (evaluate_thunk i) fuel f time)
          (λ v. Says meaning fuel v i (holds meaning fuel f i))
  unfolding evaluate holds value_holds
  evaluate-Says fuel (Formula.pure true _) i time h = return-Returns _ _ (tt, λ n. refl)
  evaluate-Says fuel (Formula.pure false _) i time h = return-Returns _ _ (tt, λ n. refl)
  evaluate-Says zero (Formula.thunk _ _) i time h = absurd h
  evaluate-Says (suc fuel) (Formula.thunk function negated) i time h =
      thunk-Says fuel function negated i time (λ f e.
        let g = meaning i function negated in
        subst
          (λ k.
            Returns (evaluate (evaluate_thunk i) fuel k time)
              (λ v. Says meaning fuel v i (holds meaning fuel g i)))
          (sym e) (evaluate-Says fuel g i time (h i)))
  evaluate-Says fuel (Formula.and l r) i time h =
      both-Says fuel i _ _ _ _ evaluate_and _ (λ u v. evaluate_and-Says meaning fuel u v i _ _)
        (evaluate-Says fuel l i time h.0) (evaluate-Says fuel r i time h.1)
  evaluate-Says fuel (Formula.or l r) i time h =
      both-Says fuel i _ _ _ _ evaluate_or _ (λ u v. evaluate_or-Says meaning fuel u v i _ _)
        (evaluate-Says fuel l i time h.0) (evaluate-Says fuel r i time h.1)
  evaluate-Says fuel (Formula.implies l r) i time h =
      both-Says fuel i _ _ _ _ (evaluate_implies l) _
        (λ u v hu hv. evaluate_implies-Says meaning fuel u v i _ _ hu hv l)
        (evaluate-Says fuel l i time h.0) (evaluate-Says fuel r i time h.1)
  evaluate-Says fuel (Formula.next f) i time h = return-Returns _ _ (next-Says fuel f i time h)
  evaluate-Says fuel (Formula.always f none) i time h =
      evaluate_always-Says fuel _ f time time i h.1 (evaluate-Says fuel f i time h.1)
  evaluate-Says fuel (Formula.always f (some _)) i time h = cc
  evaluate-Says fuel (Formula.eventually f none) i time h =
      evaluate_eventually-Says fuel _ f time time i h.1 (evaluate-Says fuel f i time h.1)
  evaluate-Says fuel (Formula.eventually f (some _)) i time h = cc
