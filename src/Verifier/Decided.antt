-- ===== src/Verifier/Decided.antt =====
-- `Verifier::step` of lib/bombadil/src/specification/verifier.rs over all properties.
use bombadil.Common.{
  ℕ, suc, Bool, true, false, not, ◌||◌, String, Option, List, [], ◌∷◌, ◌++◌, ◌≡◌, refl, ap, arith,
}
use bombadil.Common.Run.{Returns, return-Returns, >>=-Returns}
use bombadil.Ltl.Domain.{Domain}
use bombadil.Ltl.Formula.{Formula}
use bombadil.Ltl.Value.{Value}
use bombadil.Ltl.Eval.{EvaluateThunk}
use bombadil.Ltl.Semantics.{Meaning}
use bombadil.Ltl.Semantics.Evaluate.{Answers}
use bombadil.Verifier.{
  PropertyState, Property, StepResult, Runtime, is_pending, any_pending, report_of, step_properties,
  generate_all, evaluate_thunk, step,
}
use bombadil.Verifier.Follow.{IsSettled, Tracks, is_violation, is_reported, step_state-Follows}

-- A property's formula, and whether some state has violated it.
abbrev pub Standing : Domain → Type 0
Standing D = Formula D × Bool

module _ {D : Domain} where
  abbrev pub advanced : List (Standing D) → List (Option (Value D)) → List (Standing D)
  advanced ((f, violated) ∷ standings) (verdict ∷ verdicts) =
      (f, violated || is_violation verdict) ∷ advanced standings verdicts
  advanced _ _ = []

  -- The reports of the properties that a verdict was reached for.
  abbrev pub named : List (Property D) → List (Option (Value D)) → List (String × Value D)
  named (p ∷ ps) (verdict ∷ verdicts) = report_of p.name verdict ++ named ps verdicts
  named _ _ = []

  -- There is a verdict for each property that was pending, and for no other.
  abbrev pub AllReported : List (Property D) → List (Option (Value D)) → Type 0
  AllReported [] [] = Unit
  AllReported (p ∷ ps) (verdict ∷ verdicts) =
      (is_reported verdict ≡ is_pending p.state) × AllReported ps verdicts
  AllReported _ _ = ⊥

  abbrev pub names : List (Property D) → List String
  names [] = []
  names (p ∷ ps) = p.name ∷ names ps

module _ {D : Domain} (meaning : Meaning D) (fuel : ℕ) where
  -- Each property is followed, as `Tracks` says.
  abbrev pub AllTrack : ℕ → List (Standing D) → List (Property D) → Type 0
  AllTrack i [] [] = Unit
  AllTrack i ((f, violated) ∷ standings) (p ∷ ps) =
      Tracks meaning fuel f violated i p.state × AllTrack i standings ps
  AllTrack i _ _ = ⊥

  -- After the state at the position `i`: one verdict for each property, or none.
  pub record After (i : ℕ) (standings : List (Standing D)) (ps : List (Property D))
      (result : List (String × Value D) × List (Property D)) : Type 0 where
    pub verdicts : List (Option (Value D))
    pub reported : result.0 ≡ named ps verdicts
    pub same_names : names result.1 ≡ names ps
    pub pending_reported : AllReported ps verdicts
    pub tracks : AllTrack (suc i) (advanced standings verdicts) result.1

  -- No formula depends on how the trace goes on after the position `i`: one that was violated is
  -- false, any other is true.
  abbrev pub AllSettled : ℕ → List (Standing D) → Type 0
  AllSettled i [] = Unit
  AllSettled i ((f, violated) ∷ standings) =
      IsSettled meaning fuel f i (not violated) × AllSettled i standings

  state_settled :
      (i : ℕ) (f : Formula D) (violated : Bool) (state : PropertyState D)
      → Tracks meaning fuel f violated (suc i) state
      → is_pending state ≡ false
      → IsSettled meaning fuel f i (not violated)
  state_settled i f violated (PropertyState.initial _) h e = absurd h
  state_settled i f false (PropertyState.residual _) h e = cc
  state_settled i f true (PropertyState.residual _) h e = cc
  state_settled i f false PropertyState.definitely_true h e = h
  state_settled i f true PropertyState.definitely_true h e = h
  state_settled i f false PropertyState.definitely_false h e = absurd h
  state_settled i f true PropertyState.definitely_false h e = h

  or_false_both : (a b : Bool) → (a || b) ≡ false → (a ≡ false) × (b ≡ false)
  or_false_both a b e = ground (arith, e)

  -- If no property is pending after the state at the position `i`, then every formula is settled.
  none_pending :
      (i : ℕ) (standings : List (Standing D)) (ps : List (Property D))
      → AllTrack (suc i) standings ps
      → any_pending ps ≡ false
      → AllSettled i standings
  unfolding any_pending
  none_pending i [] [] h e = tt
  none_pending i [] (p ∷ ps) h e = absurd h
  none_pending i (s ∷ standings) [] h e = absurd h
  none_pending i ((f, violated) ∷ standings) (p ∷ ps) h e =
      let (stopped, rest) = or_false_both (is_pending p.state) (any_pending ps) e in
      (state_settled i f violated p.state (h.0) stopped, none_pending i standings ps (h.1) rest)

module _ {D : Domain} {W E : Type 0} (thunks : ℕ → EvaluateThunk D W E) (meaning : Meaning D)
    (answers : Answers thunks meaning) (fuel : ℕ) where
  step_properties-After :
      (i : ℕ) (time : D.Time) (standings : List (Standing D)) (ps : List (Property D))
      → AllTrack meaning fuel i standings ps
      → Returns (step_properties (thunks i) fuel time ps) (After meaning fuel i standings ps)
  unfolding step_properties
  step_properties-After i time [] [] h = return-Returns _ _ (record {
    verdicts = [];
    reported = refl;
    same_names = refl;
    pending_reported = tt;
    tracks = tt;
  })
  step_properties-After i time [] (p ∷ ps) h = absurd h
  step_properties-After i time (s ∷ standings) [] h = absurd h
  step_properties-After i time ((f, violated) ∷ standings) (p ∷ ps) h =
      >>=-Returns _ _ _ _
        (step_state-Follows thunks meaning answers fuel f i time violated p.state (h.0))
        λ r follows.
          >>=-Returns _ _ _ _ (step_properties-After i time standings ps (h.1)) λ rest after.
            return-Returns _ _ (record {
              verdicts = r.0 ∷ after.verdicts;
              reported = ap (report_of p.name (r.0) ++◌) after.reported;
              same_names = ap (p.name ∷◌) after.same_names;
              pending_reported = (follows.1, after.pending_reported);
              tracks = (follows.0, after.tracks);
            })

module _ {D : Domain} {Snapshot Js G A W E : Type 0} (runtimes : ℕ → Runtime D Snapshot Js G A W E)
    (snapshots : ℕ → List Snapshot) (meaning : Meaning D) where
  -- At each position the extractors are updated and the generators run without an error, and each
  -- thunk returns what `meaning` gives it.
  pub record Runs : Type 0 where
    pub updates : (i : ℕ) → Returns ((runtimes i).update_from_snapshots (snapshots i)) (λ _. Unit)
    pub generates : (i : ℕ) (g : G) → Returns ((runtimes i).generate g) (λ _. Unit)
    pub answers : Answers (λ i. evaluate_thunk (runtimes i) (snapshots i)) meaning

  generate_all-Returns :
      (i : ℕ)
      → ((g : G) → Returns ((runtimes i).generate g) (λ _. Unit))
      → (gs : List G) → Returns (generate_all (runtimes i).generate gs) (λ _. Unit)
  unfolding generate_all
  generate_all-Returns i h [] = return-Returns _ _ tt
  generate_all-Returns i h (g ∷ gs) =
      >>=-Returns _ _ _ _ (h g)
        λ t _. >>=-Returns _ _ _ _ (generate_all-Returns i h gs) λ bs _. return-Returns _ _ tt

  module _ (fuel : ℕ) where
    -- The result of the state at the position `i`, and the properties after it.
    pub record Steps (i : ℕ) (standings : List (Standing D)) (ps : List (Property D))
        (result : StepResult D A × List (Property D)) : Type 0 where
      pub after : After meaning fuel i standings ps (result.0.properties, result.1)
      pub stops_settled :
          result.0.has_pending ≡ false
          → AllSettled meaning fuel i (advanced standings after.verdicts)

    -- Where the runtime answers at every position, and formulas fit the fuel, a step of the verifier
    -- returns. It reports a verdict for each property that was pending and for no other, and follows
    -- every property.
    -- When it finds nothing pending, each formula is settled: false where a violation has been
    -- reported, and true elsewhere, however the trace goes on.
    pub step-Steps :
        Runs
        → (i : ℕ) (generators : List G) (time : D.Time) (standings : List (Standing D))
          (ps : List (Property D))
        → AllTrack meaning fuel i standings ps
        → Returns (step (runtimes i) fuel generators (snapshots i) time ps) (Steps i standings ps)
    unfolding step
    step-Steps runs i generators time standings ps h = >>=-Returns _ _ _ _ (runs.updates i) λ _ _.
        >>=-Returns _ _ _ _
          (step_properties-After (λ j. evaluate_thunk (runtimes j) (snapshots j)) meaning
            runs.answers fuel i time standings ps h)
          λ r after.
            >>=-Returns _ _ _ _ (generate_all-Returns i (runs.generates i) generators) λ bs _.
              return-Returns _ _ (record {
                after = after;
                stops_settled =
                    none_pending meaning fuel i (advanced standings after.verdicts) r.1
                      after.tracks;
              })
