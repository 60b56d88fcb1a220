-- ===== src/Cli/Through.antt =====
-- The observer of lib/bombadil-cli/src/main.rs through the states of a test, and what is expected of
-- it: where it stops, for which reason, and with which number of violations.
use bombadil.Common.{
  ℕ, ◌+◌, ◌<◌, ◌≤◌, Bool, true, false, ◌⊎◌, inl, inr, Option, none, some, List, [], ◌∷◌, ◌++◌, ◌≡◌,
  length, ltb, if◌then◌else◌,
}
use bombadil.Common.Run.{Comp, return, ◌>>=◌}
use bombadil.Runner.Loop.{ControlFlow}
use bombadil.Cli.Observer.{
  ExitReason, TestResult, MainObserver, Observed, Effect, Failure, on_new_state, on_interrupted,
  exit_code,
}

-- Whether a deadline has passed at a time.
abbrev pub IsPast : Option ℕ → ℕ → Type 0
IsPast none timestamp = ⊥
IsPast (some deadline) timestamp = deadline ≤ timestamp

abbrev pub IsBefore : Option ℕ → ℕ → Type 0
IsBefore none timestamp = Unit
IsBefore (some deadline) timestamp = timestamp < deadline

-- A result for a reason at a time, where `stops` says whether violations end the test.
abbrev pub HasReason : Bool → Option ℕ → ℕ → ℕ → ExitReason → Type 0
HasReason stops deadline timestamp n ExitReason.exit_on_violation = (stops ≡ true) × (0 < n)
HasReason stops deadline timestamp n ExitReason.time_limit =
    ((stops ≡ false) ⊎ (n ≡ 0)) × IsPast deadline timestamp
HasReason stops deadline timestamp n ExitReason.interrupted = ⊥

module _ {V : Type 0} where
  abbrev pub after_control :
      (MainObserver → Comp (List (Effect V)) Failure (MainObserver ⊎ TestResult))
      → MainObserver × ControlFlow TestResult
      → Comp (List (Effect V)) Failure (MainObserver ⊎ TestResult)
  after_control go_on (self, ControlFlow.stop result) = return (inr result)
  after_control go_on (self, ControlFlow.continue) = go_on self

  -- The observer through the states of a test, as lib/bombadil/src/runner.rs calls it: up to the
  -- first result.
  unfoldable pub observe_all :
      List (Observed V) → MainObserver → Comp (List (Effect V)) Failure (MainObserver ⊎ TestResult)
  unfolding on_new_state
  observe_all [] self = return (inl self)
  observe_all (state ∷ states) self = on_new_state self state >>= after_control (observe_all states)

  abbrev pub total : List (Observed V) → ℕ
  total [] = 0
  total (state ∷ states) = length state.violations + total states

  -- How many violations have been printed.
  abbrev pub printed : List (Effect V) → ℕ
  printed [] = 0
  printed (Effect.print_violation _ _ ∷ w) = printed w + 1
  printed (Effect.print_action _ ∷ w) = printed w
  printed (Effect.write_trace _ _ ∷ w) = printed w

  -- The test goes on after a state.
  abbrev pub GoesOn : Bool → Option ℕ → Observed V → Type 0
  GoesOn stops deadline state =
      (stops ≡ true → length state.violations ≡ 0) × IsBefore deadline state.timestamp

  abbrev pub AllGoOn : Bool → Option ℕ → List (Observed V) → Type 0
  AllGoOn stops deadline [] = Unit
  AllGoOn stops deadline (state ∷ states) =
      GoesOn stops deadline state × AllGoOn stops deadline states

  -- One of the states ends the test: it goes on after each state before that one, and `n` violations
  -- are printed then, of these states and the one that ends it.
  pub record IsEnded (stops : Bool) (deadline : Option ℕ) (before : ℕ) (states : List (Observed V))
      (n : ℕ) (reason : ExitReason) : Type 0 where
    pub seen : List (Observed V)
    pub last : Observed V
    pub rest : List (Observed V)
    pub are_states : seen ++ last ∷ rest ≡ states
    pub go_on : AllGoOn stops deadline seen
    pub prints : n ≡ before + total seen + length last.violations
    pub fits : HasReason stops deadline last.timestamp n reason

  -- After the test has gone on through all states, the observer has the number of violations
  -- printed; else a result has it, and one of the states has ended the test.
  abbrev pub Counts :
      Bool → Option ℕ → ℕ → List (Observed V) → MainObserver ⊎ TestResult → List (Effect V) → Type 0
  Counts stops deadline before states (inl self) w =
      (self.violations_count ≡ printed w)
      × AllGoOn stops deadline states
      × (printed w ≡ before + total states)
      × (exit_code (some (on_interrupted self)) ≡ (if ltb 0 (printed w) then 2 else 0))
  Counts stops deadline before states (inr result) w =
      (result.violations_count ≡ printed w)
      × IsEnded stops deadline before states (printed w) result.exit_reason
      × (exit_code (some result) ≡ (if ltb 0 (printed w) then 2 else 0))
