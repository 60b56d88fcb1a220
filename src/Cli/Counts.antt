-- ===== src/Cli/Counts.antt =====
-- What the observer of lib/bombadil-cli/src/main.rs makes of the states of a test.
use mathlib.Core.Path.{subst}
use bombadil.Common.{
  sym, ℕ, ◌+◌, ◌^◌, ◌<◌, Bool, true, false, ◌&&◌, ◌⊎◌, inl, inr, Option, none, some, List, [], ◌∷◌,
  ap, ◌≡◌, refl, ◌∙◌, length, ltb, arith, Bool-cases, if◌then◌else◌,
}
use bombadil.Common.Run.{Ends-map, Ends, Ends-bind, Ends-expect}
use bombadil.Runner.Loop.{ControlFlow}
use bombadil.Cli.Observer.{
  TestResult, MainObserver, Observed, Effect, Failure, is_reached, print_all, print_last_action,
  control_of, on_new_state, on_interrupted, exit_code,
}
use bombadil.Cli.Through.{
  IsPast, IsBefore, HasReason, GoesOn, Counts, after_control, observe_all, total, printed,
}

-- What the control flow after a state says of the observer with `n` violations.
abbrev Controls : MainObserver → ℕ → ℕ → ControlFlow TestResult → Type 0
Controls self timestamp n (ControlFlow.stop result) =
    (result.violations_count ≡ n)
    × HasReason self.stops_on_violation self.deadline timestamp n result.exit_reason
Controls self timestamp n ControlFlow.continue =
    (self.stops_on_violation ≡ true → n ≡ 0) × IsBefore self.deadline timestamp

is_reached-IsPast :
    (deadline : Option ℕ) (timestamp : ℕ)
    → is_reached deadline timestamp ≡ true
    → IsPast deadline timestamp
is_reached-IsPast none timestamp e = cc
is_reached-IsPast (some deadline) timestamp e = ground (arith, e)

is_reached-IsBefore :
    (deadline : Option ℕ) (timestamp : ℕ)
    → is_reached deadline timestamp ≡ false
    → IsBefore deadline timestamp
is_reached-IsBefore none timestamp e = tt
is_reached-IsBefore (some deadline) timestamp e = ground (arith, e)

control_of-Controls :
    (self : MainObserver) (timestamp n : ℕ)
    → self.violations_count ≡ n
    → Controls self timestamp n (control_of self timestamp)
unfolding control_of
control_of-Controls self timestamp n e =
    elim (Bool-cases (ltb 0 self.violations_count && self.stops_on_violation)) [
      | inl t ↦ rw t (e, ground (arith, t, e))
      | inr t ↦ rw t (elim (Bool-cases (is_reached self.deadline timestamp)) [
        | inl u ↦ rw u (e, (ground (arith, t, e), is_reached-IsPast self.deadline timestamp u))
        | inr u ↦
            rw u ((λ h. ground (arith, t, e, h)), is_reached-IsBefore self.deadline timestamp u)
      ])
    ]

exits :
    (result : TestResult) (n : ℕ)
    → result.violations_count ≡ n
    → exit_code (some result) ≡ (if ltb 0 n then 2 else 0)
unfolding exit_code
exits result n e = rw e refl

module _ {V : Type 0} where
  Counts-later :
      (stops : Bool) (deadline : Option ℕ) (before n : ℕ) (state : Observed V)
      (states : List (Observed V)) (r : MainObserver ⊎ TestResult) (w : List (Effect V))
      → GoesOn stops deadline state
      → n ≡ before + length state.violations
      → Counts stops deadline n states r w
      → Counts stops deadline before (state ∷ states) r w
  Counts-later stops deadline before n state states (inl self) w g e c =
      (c.0, (g, c.1), omega (arith, e, c.2), c.3)
  Counts-later stops deadline before n state states (inr result) w g e c =
      let end = c.1 in
      (
        c.0,
        record {
          seen = state ∷ end.seen;
          last = end.last;
          rest = end.rest;
          are_states = ap (λ states. state ∷ states) end.are_states;
          go_on = (g, end.go_on);
          prints = omega (arith, e, end.prints);
          fits = end.fits;
        },
        c.2,
      )

  printed-print_all :
      (vs : List V) (start : ℕ) (w : List (Effect V))
      → Ends (λ _ w'. printed w' ≡ printed w + length vs) (λ _. Unit) (print_all vs start w)
  printed-print_all [] start w = omega arith
  printed-print_all (v ∷ vs) start w =
      let w' : List (Effect V) = Effect.print_violation v start ∷ w in
      Ends-map (λ _ u. printed u ≡ printed w' + length vs) (λ _. Unit)
        (λ _ u. printed u ≡ printed w + length (v ∷ vs)) (λ _. Unit) (print_all vs start w')
        (λ _ u e. omega (arith, e)) (λ _ _. tt) (printed-print_all vs start w')

  printed-print_last_action :
      (b : Bool) (start : ℕ) (w : List (Effect V))
      → Ends (λ _ w'. printed w' ≡ printed w) (λ _. Unit) (print_last_action b start w)
  printed-print_last_action true start w = refl
  printed-print_last_action false start w = refl

  -- What one state does.
  abbrev Observes :
      MainObserver
      → Observed V
      → List (Effect V)
      → MainObserver × ControlFlow TestResult
      → List (Effect V)
      → Type 0
  Observes self state w (self', control) w' =
      (printed w' ≡ printed w + length state.violations)
      × (self'.violations_count ≡ printed w')
      × (self'.stops_on_violation ≡ self.stops_on_violation)
      × (self'.deadline ≡ self.deadline)
      × (control ≡ control_of self' state.timestamp)

  on_new_state-Observes :
      (self : MainObserver) (state : Observed V) (w : List (Effect V))
      → self.violations_count ≡ printed w
      → printed w + length state.violations < 2 ^ 64
      → Ends (Observes self state w) (λ _. Unit) (on_new_state self state w)
  unfolding on_new_state
  on_new_state-Observes self state w c b =
      Ends-bind (λ _ u. printed u ≡ printed w) (Observes self state w) (λ _. Unit)
        (print_last_action state.has_last_action _) _ w
        (printed-print_last_action state.has_last_action _ w)
        λ _ u e.
          Ends-bind (λ _ v. printed v ≡ printed u + length state.violations) (Observes self state w)
            (λ _. Unit) (print_all state.violations _) _ u (printed-print_all state.violations _ u)
            λ _ v f.
              Ends-expect (Observes self state w) (λ _. Unit) state.writes Failure.writer_failed _ v
                tt λ _. (omega (arith, e, f), omega (arith, e, f, c, b), refl, refl, refl)

  -- What follows a state, where `ih` tells what the other states do.
  went_on :
      (state : Observed V) (states : List (Observed V)) (self : MainObserver) (stops : Bool)
      (deadline : Option ℕ) (w : List (Effect V))
      → self.stops_on_violation ≡ stops
      → self.deadline ≡ deadline
      → ((self : MainObserver) (w : List (Effect V))
          → self.stops_on_violation ≡ stops
          → self.deadline ≡ deadline
          → self.violations_count ≡ printed w
          → printed w + total states < 2 ^ 64
          → Ends (Counts stops deadline (printed w) states) (λ _. Unit) (observe_all states self w))
      → printed w + total (state ∷ states) < 2 ^ 64
      → (r : MainObserver × ControlFlow TestResult) (w' : List (Effect V))
      → Observes self state w r w'
      → Ends
          (Counts stops deadline (printed w) (state ∷ states))
          (λ _. Unit)
          (after_control (observe_all states) r w')
  went_on state states self stops deadline w s d ih b (self', ControlFlow.stop result) w' o =
      let h =
        subst (Controls self' state.timestamp (printed w')) (sym (o.4))
          (control_of-Controls self' state.timestamp (printed w') (o.1)) in
      (
        h.0,
        record {
          seen = [];
          last = state;
          rest = states;
          are_states = refl;
          go_on = tt;
          prints = omega (arith, o.0);
          fits =
              subst (λ b. HasReason b deadline state.timestamp (printed w') result.exit_reason)
                (o.2 ∙ s)
                (subst
                  (λ d.
                    HasReason self'.stops_on_violation d state.timestamp (printed w')
                      result.exit_reason)
                  (o.3 ∙ d) (h.1));
        },
        exits result (printed w') (h.0),
      )
  went_on state states self stops deadline w s d ih b (self', ControlFlow.continue) w' o =
      let h =
        subst (Controls self' state.timestamp (printed w')) (sym (o.4))
          (control_of-Controls self' state.timestamp (printed w') (o.1)) in
      Ends-map (Counts stops deadline (printed w') states) (λ _. Unit)
        (Counts stops deadline (printed w) (state ∷ states)) (λ _. Unit)
        (observe_all states self' w')
        (λ r u c.
          Counts-later stops deadline (printed w) (printed w') state states r u
            (
              (λ e. let none_printed = h.0 (o.2 ∙ s ∙ e) in omega (arith, none_printed, o.0)),
              subst (λ d. IsBefore d state.timestamp) (o.3 ∙ d) (h.1),
            )
            (o.0) c)
        (λ _ _. tt) (ih self' w' (o.2 ∙ s) (o.3 ∙ d) (o.1) (omega (arith, b, o.0)))

  observe_all-Counts :
      (states : List (Observed V)) (self : MainObserver) (stops : Bool) (deadline : Option ℕ)
      (w : List (Effect V))
      → self.stops_on_violation ≡ stops
      → self.deadline ≡ deadline
      → self.violations_count ≡ printed w
      → printed w + total states < 2 ^ 64
      → Ends (Counts stops deadline (printed w) states) (λ _. Unit) (observe_all states self w)
  unfolding observe_all on_interrupted
  observe_all-Counts [] self stops deadline w s d c b =
      (c, tt, omega arith, exits (on_interrupted self) (printed w) c)
  observe_all-Counts (state ∷ states) self stops deadline w s d c b =
      Ends-bind (Observes self state w) (Counts stops deadline (printed w) (state ∷ states))
        (λ _. Unit) (on_new_state self state) _ w
        (on_new_state-Observes self state w c (omega (arith, b)))
        λ r w' o.
          went_on state states self stops deadline w s d
            (λ self w s d c b. observe_all-Counts states self stops deadline w s d c b) b r w' o

  -- Through any states with fewer than 2 ^ 64 violations, unless the trace cannot be written: the
  -- test goes on exactly until the first state at which the deadline has passed or, if violations
  -- end the test, a violation is found. Where no state is such, the observer has gone through all of
  -- them and counts all their violations. Where one is, the result counts the violations up to and
  -- with this state, and its reason is `exit_on_violation` only if there are some and they end the
  -- test, and `time_limit` only if the deadline has passed and there are none or they do not end it.
  -- As many violations were printed as are counted, and the exit code of a result, also of an
  -- interruption, is 2 exactly if there are some, whatever the reason.
  pub observe_all-new-Counts :
      (states : List (Observed V)) (stops : Bool) (deadline : Option ℕ)
      → total states < 2 ^ 64
      → Ends
          (Counts stops deadline 0 states)
          (λ _. Unit)
          (observe_all states
            (record {
              stops_on_violation = stops;
              test_start = none;
              deadline = deadline;
              violations_count = 0;
            })
            [])
  observe_all-new-Counts states stops deadline b =
      observe_all-Counts states _ stops deadline [] refl refl refl (omega (arith, b))
