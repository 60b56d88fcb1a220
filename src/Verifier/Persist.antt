-- ===== src/Verifier/Persist.antt =====
-- One property of `Verifier::step` of lib/bombadil/src/specification/verifier.rs over many states of
-- the page, where the property says that something is always so.
use bombadil.Common.{ℕ, suc, Bool, true, not, Option, none, some, List, [], ◌∷◌, ◌≡◌, refl}
use bombadil.Common.Run.{Comp, Returns, return, return-Returns, >>=-Returns, ◌>>=◌}
use bombadil.Ltl.Domain.{Domain}
use bombadil.Ltl.Formula.{Formula}
use bombadil.Ltl.Value.{Value, Residual, Derived, assume_true}
use bombadil.Ltl.Combine.{always_value}
use bombadil.Ltl.Eval.{EvaluateThunk, evaluate, evaluate_always, step as evaluator_step}
use bombadil.Ltl.Semantics.{Meaning, holds}
use bombadil.Ltl.Semantics.Evaluate.{Answers}
use bombadil.Ltl.Semantics.Instant.{IsInstant, Decides, evaluate-Decides}
use bombadil.Verifier.{PropertyState, settle, settled, is_pending, step_state}
use bombadil.Verifier.Follow.{is_violation}

module _ {D : Domain} {W E : Type 0} (thunks : ℕ → EvaluateThunk D W E) (fuel : ℕ) where
  -- A property over states at the given times, the first at the position `i`: what is reported of
  -- it at each of them, and its state after them.
  unfoldable pub watch :
      ℕ → List D.Time → PropertyState D → Comp W E (List (Option (Value D)) × PropertyState D)
  watch i [] state = return ([], state)
  watch i (time ∷ times) state = do
    (report, state') ← step_state (thunks i) fuel time state
    (reports, last) ← watch (suc i) times state'
    return (report ∷ reports, last)

module _ {D : Domain} (meaning : Meaning D) where
  -- The reports from the position `i` on, one at each state: a violation where the formula is false,
  -- and something else where it holds.
  abbrev pub AllChecked : ℕ → Formula D → ℕ → List D.Time → List (Option (Value D)) → Type 0
  AllChecked fuel f i [] [] = Unit
  AllChecked fuel f i (time ∷ times) (some value ∷ reports) =
      ((n : ℕ) → is_violation (some value) ≡ not (holds meaning fuel f i n))
      × AllChecked fuel f (suc i) times reports
  AllChecked fuel f i _ _ = ⊥

module _ {D : Domain} where
  -- The state of a property that says that `f` is always so: all of it is left.
  data Watches (f : Formula D) (state : PropertyState D) : Type 0 where
    at_first : state ≡ PropertyState.initial (Formula.always f none) → Watches f state
    left :
        (start : D.Time)
        → state
          ≡ PropertyState.residual (Residual.derived (Derived.always start none f) assume_true)
        → Watches f state

  Watches-is_pending :
      (f : Formula D) (state : PropertyState D) → Watches f state → is_pending state ≡ true
  Watches-is_pending f state (at_first e) = rw e refl
  Watches-is_pending f state (left start e) = rw e refl

  -- What one state does: `g` tells whether the formula holds, for any number of later states.
  abbrev Checks : Formula D → (ℕ → Bool) → Option (Value D) × PropertyState D → Type 0
  Checks f g (none, state) = ⊥
  Checks f g (some value, state) =
      ((n : ℕ) → is_violation (some value) ≡ not (g n)) × Watches f state

  always_Checks :
      (f : Formula D) (start time : D.Time) (g : ℕ → Bool) (v : Value D)
      → ((n : ℕ) → Decides v (g n))
      → Checks f g (settled (always_value f start none time v))
  unfolding always_value settle
  always_Checks f start time g (Value.true_with _) h = ((λ n. rw (h n) refl), left start refl)
  always_Checks f start time g (Value.false_with _ none) h = ((λ n. rw (h n) refl), left start refl)
  always_Checks f start time g (Value.false_with _ (some _)) h = absurd (h 0)
  always_Checks f start time g (Value.residual _) h = absurd (h 0)

module _ {D : Domain} {W E : Type 0} (thunks : ℕ → EvaluateThunk D W E) (meaning : Meaning D)
    (answers : Answers thunks meaning) (fuel : ℕ) (f : Formula D)
    (instant : IsInstant meaning fuel f) where
  always-Checks :
      (i : ℕ) (start time : D.Time)
      → Returns
          (evaluate_always (evaluate (thunks i) fuel f time) f start none time >>= λ value.
            return (settled value))
          (Checks f (holds meaning fuel f i))
  unfolding evaluate_always
  always-Checks i start time =
      >>=-Returns _ _ _ _
        (>>=-Returns _ _ (λ v. (n : ℕ) → Decides v (holds meaning fuel f i n)) _
          (evaluate-Decides thunks meaning answers fuel f i time instant)
          λ v d.
            return-Returns _ (λ w. Checks f (holds meaning fuel f i) (settled w))
              (always_Checks f start time _ v d))
        λ v c. return-Returns _ _ c

  step_state-Checks :
      (i : ℕ) (time : D.Time) (state : PropertyState D)
      → Watches f state
      → Returns (step_state (thunks i) fuel time state) (Checks f (holds meaning fuel f i))
  unfolding step_state evaluate evaluator_step
  step_state-Checks i time state (at_first e) = rw e (always-Checks i time time)
  step_state-Checks i time state (left start e) = rw e (always-Checks i start time)

  -- A state and the states after it.
  then_Checked :
      (i : ℕ) (time : D.Time) (times : List D.Time) (r : Option (Value D) × PropertyState D)
      (rest : Comp W E (List (Option (Value D)) × PropertyState D))
      → Checks f (holds meaning fuel f i) r
      → (Watches f r.1
          → Returns rest (λ p. AllChecked meaning fuel f (suc i) times p.0 × Watches f p.1))
      → Returns {A = List (Option (Value D)) × PropertyState D}
          (rest >>= λ (reports, last). return (r.0 ∷ reports, last))
          (λ p. AllChecked meaning fuel f i (time ∷ times) p.0 × Watches f p.1)
  then_Checked i time times (none, state) rest c h = absurd c
  then_Checked i time times (some value, state) rest c h =
      >>=-Returns _ _ _ _ (h c.1) λ r a. return-Returns _ _ ((c.0, a.0), a.1)

  watch-Checked :
      (times : List D.Time) (i : ℕ) (state : PropertyState D)
      → Watches f state
      → Returns
          (watch thunks fuel i times state)
          (λ r. AllChecked meaning fuel f i times r.0 × Watches f r.1)
  unfolding watch
  watch-Checked [] i state h = return-Returns _ _ (tt, h)
  watch-Checked (time ∷ times) i state h =
      >>=-Returns _ _ _ _ (step_state-Checks i time state h)
        λ r c. then_Checked i time times r _ c (watch-Checked times (suc i) r.1)

  -- Where every thunk returns what `meaning` gives it, and the formula `f` is about one state: the
  -- property that `f` is always so, with no time bound, is evaluated at every one of any number of
  -- states, also after it was violated. At each of them a value is reported, which is a violation
  -- exactly if `f` is false at that state, and after them the property is still pending.
  pub watch-always :
      (times : List D.Time)
      → Returns
          (watch thunks fuel 0 times (PropertyState.initial (Formula.always f none)))
          (λ r. AllChecked meaning fuel f 0 times r.0 × (is_pending r.1 ≡ true))
  watch-always times host =
      let y = watch-Checked times 0 _ (at_first refl) host in
      record {
        value = y.value;
        host = y.host;
        runs = y.runs;
        meets = (y.meets.0, Watches-is_pending f y.value.1 y.meets.1);
      }
