-- ===== src/Verifier/Follow.antt =====
-- What `Verifier::step` of lib/bombadil/src/specification/verifier.rs keeps of each property: the
-- state of a property says what is left of its formula.
use bombadil.Common.{
  ℕ, zero, suc, ◌+◌, Bool, true, false, ◌||◌, Option, none, some, ◌≡◌, refl, sym, ap, arith, ◌∙◌,
}
use bombadil.Common.Run.{Returns, return-Returns, >>=-Returns}
use bombadil.Ltl.Domain.{Domain}
use bombadil.Ltl.Formula.{Formula}
use bombadil.Ltl.Value.{Value}
use bombadil.Ltl.Eval.{EvaluateThunk}
use bombadil.Ltl.Semantics.{
  Meaning, holds, residual_holds, value_holds, Fits, ResidualFits, ValueFits,
}
use bombadil.Ltl.Semantics.Evaluate.{Answers, evaluate-Says}
use bombadil.Ltl.Semantics.Step.{step-Says}
use bombadil.Verifier.{PropertyState, settle, settled, is_pending, step_state}

abbrev pub is_reported : {D : Domain} → Option (Value D) → Bool
is_reported (some _) = true
is_reported none = false

abbrev pub is_violation : {D : Domain} → Option (Value D) → Bool
is_violation (some (Value.false_with _ _)) = true
is_violation _ = false

module _ {D : Domain} (meaning : Meaning D) (fuel : ℕ) (f : Formula D) where
  -- The formula has the truth value `b` however the trace goes on after the position `j`.
  abbrev pub IsSettled : ℕ → Bool → Type 0
  IsSettled j b = (n : ℕ) → holds meaning fuel f 0 (j + n) ≡ b

  -- A property of the formula `f` after `i` states, of which some has `violated` it or none has.
  abbrev pub Tracks : Bool → ℕ → PropertyState D → Type 0
  Tracks violated zero (PropertyState.initial g) =
      (g ≡ f) × Fits meaning fuel f × (violated ≡ false)
  Tracks violated zero _ = ⊥
  Tracks violated (suc j) (PropertyState.initial _) = ⊥
  Tracks false (suc j) (PropertyState.residual r) =
      ResidualFits meaning fuel r
      × ((n : ℕ) → residual_holds meaning fuel r (suc j) n ≡ holds meaning fuel f 0 (j + n))
  Tracks false (suc j) PropertyState.definitely_true = IsSettled j true
  Tracks false (suc j) PropertyState.definitely_false = ⊥
  Tracks true (suc j) (PropertyState.residual r) = ResidualFits meaning fuel r × IsSettled j false
  Tracks true (suc j) _ = IsSettled j false

  -- What a value of the property at the position `i` makes of it.
  abbrev Follows : Bool → ℕ → Option (Value D) × PropertyState D → Type 0
  Follows violated i (report, state) = Tracks (violated || is_violation report) (suc i) state

  abbrev pub Stepped : Bool → ℕ → PropertyState D → Option (Value D) × PropertyState D → Type 0
  Stepped violated i state r = Follows violated i r × (is_reported r.0 ≡ is_pending state)

module _ {D : Domain} {W E : Type 0} (evaluate_thunk : ℕ → EvaluateThunk D W E)
    (meaning : Meaning D) (answers : Answers evaluate_thunk meaning) (fuel : ℕ)
    (f : Formula D) where
  settled-Follows :
      (v : Value D) (i : ℕ)
      → ValueFits meaning fuel v
      → ((n : ℕ) → value_holds meaning fuel v (suc i) n ≡ holds meaning fuel f 0 (i + n))
      → Follows meaning fuel f false i (settled v)
  unfolding settle value_holds
  settled-Follows (Value.true_with _) i h e = λ n. sym (e n)
  settled-Follows (Value.false_with _ none) i h e = λ n. sym (e n)
  settled-Follows (Value.false_with _ (some r)) i h e = (h, λ n. sym (e n))
  settled-Follows (Value.residual r) i h e = (h, e)

  later : (j : ℕ) (b : Bool) → IsSettled meaning fuel f j b → IsSettled meaning fuel f (suc j) b
  later j b e n =
      let shift : suc j + n ≡ j + suc n = omega arith in
      ap (holds meaning fuel f 0) shift ∙ e (suc n)

  settled-stays :
      (v : Value D) (j : ℕ)
      → ValueFits meaning fuel v
      → IsSettled meaning fuel f j false
      → Follows meaning fuel f true (suc j) (settled v)
  unfolding settle
  settled-stays (Value.true_with _) j h e = later j false e
  settled-stays (Value.false_with _ none) j h e = later j false e
  settled-stays (Value.false_with _ (some _)) j h e = (h, later j false e)
  settled-stays (Value.residual _) j h e = (h, later j false e)

  -- Where every thunk returns what `meaning` gives it, a step of a property that is followed
  -- returns, reports a value exactly if the property was pending, and follows it: as long as none of its values was a violation, a residual says what
  -- the formula says of the whole trace, and a property is definitely true only where the formula
  -- holds however the trace goes on; from the first violation on, the formula is false however the
  -- trace goes on.
  pub step_state-Follows :
      (i : ℕ) (time : D.Time) (violated : Bool) (state : PropertyState D)
      → Tracks meaning fuel f violated i state
      → Returns
          (step_state (evaluate_thunk i) fuel time state)
          (Stepped meaning fuel f violated i state)
  unfolding step_state
  step_state-Follows zero time false (PropertyState.initial g) h =
      >>=-Returns _ _ _ _
        (evaluate-Says evaluate_thunk meaning answers fuel g 0 time (rw (h.0) (h.1)))
        λ v s. return-Returns _ _ (
          settled-Follows v 0 (s.0) (λ n.
              let start : 0 + n ≡ n = omega arith in
              s.1 n
              ∙ ap (λ g. holds meaning fuel g 0 n) (h.0)
              ∙ ap (holds meaning fuel f 0) (sym start)),
          refl,
        )
  step_state-Follows zero time true (PropertyState.initial g) h = cc
  step_state-Follows zero time violated (PropertyState.residual _) h = absurd h
  step_state-Follows zero time violated PropertyState.definitely_true h = absurd h
  step_state-Follows zero time violated PropertyState.definitely_false h = absurd h
  step_state-Follows (suc j) time violated (PropertyState.initial g) h = absurd h
  step_state-Follows (suc j) time false (PropertyState.residual r) h =
      >>=-Returns _ _ _ _ (step-Says evaluate_thunk meaning answers fuel (suc j) time r (h.0))
        λ v s. return-Returns _ _ (
          settled-Follows v (suc j) (s.0) (λ n.
              let shift : j + suc n ≡ suc j + n = omega arith in
              s.1 n ∙ h.1 (suc n) ∙ ap (holds meaning fuel f 0) shift),
          refl,
        )
  step_state-Follows (suc j) time true (PropertyState.residual r) h =
      >>=-Returns _ _ _ _ (step-Says evaluate_thunk meaning answers fuel (suc j) time r (h.0))
        λ v s. return-Returns _ _ (settled-stays v j (s.0) (h.1), refl)
  step_state-Follows (suc j) time false PropertyState.definitely_true h =
      return-Returns _ _ (later j true h, refl)
  step_state-Follows (suc j) time true PropertyState.definitely_true h =
      return-Returns _ _ (later j false h, refl)
  step_state-Follows (suc j) time false PropertyState.definitely_false h = absurd h
  step_state-Follows (suc j) time true PropertyState.definitely_false h =
      return-Returns _ _ (later j false h, refl)
