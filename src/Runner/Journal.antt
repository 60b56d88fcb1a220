-- ===== src/Runner/Journal.antt =====
-- What `Runner::run_test` of lib/bombadil/src/runner.rs has done to the browser and the observer, in
-- whatever way the test ends.
use bombadil.Common.{
  Bool, true, false, not, inl, inr, String, Option, none, some, List, [], ◌∷◌, ◌≡◌, refl,
  Bool-cases,
}
use bombadil.Common.Run.{
  Run, ok, err, out_of_fuel, Ends, Ends-expect, Ends-if, Ends-bind, Ends-map, ◌>>=◌, expect,
}
use bombadil.Tree.{Tree, PickError, try_map, filter, prune, pick}
use bombadil.Tree.Every.{
  Every, EverySome, Every-all, Every-map, prune-Every, pick-Every, filter-Every, Satisfies,
  try_map-Every,
}
use bombadil.Runner.Action.{
  JsAction, BrowserAction, ActionError, to_browser_action, is_back, action_timeout,
}
use bombadil.Runner.Timeouts.{IsValid, to_browser_action-IsValid}
use bombadil.Runner.Url.{Url, is_within_domain}
use bombadil.Runner.Loop.{
  Setting, ControlFlow, StateChanged, Event, Effect, Failure, Turn, converted_run, convert,
  picked_run, stay_within, act, proceed, on_state_changed, turn, after_turn, run_test,
  violations_of,
}

module _ (S : Setting) (origin url : Url S.Host) where
  -- The action goes back if the page at `url` is not within the origin's site.
  abbrev pub Obeys : BrowserAction S.Point → Type 0
  Obeys action = is_within_domain S.same_host url origin ≡ false → is_back action ≡ true

  stay_within-Every :
      (tree : Tree (BrowserAction S.Point)) → Every Obeys (stay_within S.same_host origin url tree)
  unfolding stay_within
  stay_within-Every tree = elim (Bool-cases (is_within_domain S.same_host url origin)) [
    | inl e ↦ rw e (Every-all Obeys (λ action h. absurd (contradiction e h)) tree)
    | inr e ↦ rw e (
        Every-map (Satisfies is_back) Obeys (λ action b _. b) (filter is_back tree)
          (filter-Every is_back tree))
  ]
    where
      contradiction : {b : Bool} → b ≡ true → b ≡ false → ⊥
      contradiction e h = cc

module _ {S : Setting} where
  picked_run-Ends :
      {A : Type 0} (P : A → Type 0) (F : List (Effect S) → Type 0)
      (run : Run S.rng.State PickError A) (w : List (Effect S))
      → F w
      → Ends (λ value _. P value) (λ _. Unit) run
      → Ends (λ value w'. (w' ≡ w) × P value) F (picked_run {S = S} run w)
  picked_run-Ends P F (ok a _) w f h = (refl, h)
  picked_run-Ends P F (err _ _) w f h = f
  picked_run-Ends P F out_of_fuel w f h = elim h [ ]

module _ {S : Setting} (origin : Url S.Host) where
  -- The action that was applied last.
  abbrev pub last_applied : List (Effect S) → Option (BrowserAction S.Point)
  last_applied [] = none
  last_applied (Effect.apply action _ ∷ journal) = some action
  last_applied (Effect.observe _ _ _ _ ∷ journal) = last_applied journal

  -- The action comes directly after a state was observed, and goes back if that state is not within
  -- the origin's site.
  abbrev pub Answers : BrowserAction S.Point → List (Effect S) → Type 0
  Answers action (Effect.observe url _ _ _ ∷ _) = Obeys S origin url action
  Answers action _ = ⊥

  -- Each observed state comes with the action that was applied last before it. Each action is
  -- applied with its own timeout, directly after a state was observed, which it answers.
  abbrev pub IsJournal : List (Effect S) → Type 0
  IsJournal [] = Unit
  IsJournal (Effect.observe url last_action _ _ ∷ journal) =
      (last_action ≡ last_applied journal) × IsJournal journal
  IsJournal (Effect.apply action timeout ∷ journal) =
      (timeout ≡ action_timeout S.len action) × Answers action journal × IsJournal journal

  -- A turn that goes on goes on with the action that was applied last.
  abbrev Turns : Turn S → List (Effect S) → Type 0
  Turns (Turn.done _) journal = IsJournal journal
  Turns (Turn.next action) journal = (some action ≡ last_applied journal) × IsJournal journal

  module _ (inputs : StateChanged S) (last : Option (BrowserAction S.Point))
      (snapshots : List S.Snapshot) (violations : List (String × S.Violation))
      (w : List (Effect S)) where
    abbrev observed : List (Effect S)
    observed = Effect.observe inputs.url last snapshots violations ∷ w

    act-Turns :
        (tree : Tree (BrowserAction S.Point))
        → Every (Obeys S origin inputs.url) tree
        → IsJournal observed
        → Ends Turns IsJournal (act inputs tree observed)
    unfolding act
    act-Turns tree h j =
        Ends-bind (λ action w'. (w' ≡ observed) × Obeys S origin inputs.url action) Turns IsJournal
          (picked_run (pick S.rng tree inputs.seed)) _ observed
          (picked_run-Ends (Obeys S origin inputs.url) IsJournal (pick S.rng tree inputs.seed)
            observed j (pick-Every (Obeys S origin inputs.url) S.rng tree inputs.seed h))
          λ action w' k. rw (k.0) (
            Ends-expect Turns IsJournal inputs.apply Failure.browser_failed _ observed j
              (λ _. (refl, (refl, k.1, j))))

    proceed-Turns :
        (has_pending : Bool) (tree : Tree (BrowserAction S.Point))
        (control : ControlFlow S.StopValue)
        → Every (Obeys S origin inputs.url) tree
        → IsJournal observed
        → Ends Turns IsJournal (proceed inputs has_pending tree control observed)
    unfolding proceed
    proceed-Turns has_pending tree (ControlFlow.stop value) h j = j
    proceed-Turns has_pending tree ControlFlow.continue h j =
        Ends-if Turns IsJournal (not has_pending) _ _ observed (λ _. j)
          (λ _. pruned (prune tree) (prune-Every (Obeys S origin inputs.url) tree h))
      where
        pruned :
            (o : Option (Tree (BrowserAction S.Point)))
            → EverySome (Obeys S origin inputs.url) o
            → Ends Turns IsJournal ((expect o Failure.no_actions >>= act inputs) observed)
        pruned none k = j
        pruned (some t) k = act-Turns t k j

  -- The conversion of actions does nothing to the browser and the observer.
  convert-Ends :
      (w : List (Effect S)) (action : JsAction S.Point) (w' : List (Effect S))
      → w' ≡ w
      → Ends (λ _ v. Unit × (v ≡ w)) (λ v. v ≡ w) (convert {S = S} action w')
  convert-Ends w action w' e =
      converted (to_browser_action action tt) (to_browser_action-IsValid action tt)
    where
      converted :
          (run : Run (Unit {0}) ActionError (BrowserAction S.Point))
          → Ends (λ a v. IsValid a × (v ≡ tt)) (λ v. v ≡ tt) run
          → Ends (λ _ v. Unit × (v ≡ w)) (λ v. v ≡ w) (converted_run {S = S} run w')
      converted (ok _ _) h = (tt, e)
      converted (err _ _) h = e
      converted out_of_fuel h = elim h [ ]

  on_state_changed-Turns :
      (last : Option (BrowserAction S.Point)) (inputs : StateChanged S) (w : List (Effect S))
      → last ≡ last_applied w
      → IsJournal w
      → Ends Turns IsJournal (on_state_changed origin last inputs w)
  unfolding on_state_changed
  on_state_changed-Turns last inputs w l j =
      Ends-expect Turns IsJournal inputs.snapshots Failure.extractors_failed _ w j λ snapshots.
        Ends-expect Turns IsJournal inputs.step_result Failure.verifier_failed _ w j λ result.
          Ends-bind (λ tree w'. w' ≡ w) Turns IsJournal (try_map convert result.actions) _ w
            (Ends-map (λ t w'. Every (λ _. Unit) t × (w' ≡ w)) (λ w'. w' ≡ w) (λ _ w'. w' ≡ w)
              IsJournal (try_map convert result.actions w) (λ _ _ k. k.1) (λ w' e. rw e j)
              (try_map-Every convert (λ _. Unit) (λ w'. w' ≡ w)
                (λ action w' e. convert-Ends w action w' e) result.actions w refl))
            λ tree w' e. rw e (
              Ends-expect Turns IsJournal inputs.control Failure.observer_failed _
                (observed inputs last snapshots (violations_of result.properties) w) (l, j)
                λ control.
                  proceed-Turns inputs last snapshots (violations_of result.properties) w
                    result.has_pending (stay_within S.same_host origin inputs.url tree) control
                    (stay_within-Every S origin inputs.url tree) (l, j))

  turn-Turns :
      (last : Option (BrowserAction S.Point)) (event : Event S) (w : List (Effect S))
      → last ≡ last_applied w
      → IsJournal w
      → Ends Turns IsJournal (turn origin last event w)
  unfolding turn
  turn-Turns last (Event.state_changed inputs) w l j = on_state_changed-Turns last inputs w l j
  turn-Turns last Event.error w l j = j
  turn-Turns last Event.closed w l j = j
  turn-Turns last (Event.interrupted value) w l j =
      Ends-expect Turns IsJournal value Failure.observer_failed _ w j (λ _. j)

  run_test-Turns :
      (events : List (Event S)) (last : Option (BrowserAction S.Point)) (w : List (Effect S))
      → last ≡ last_applied w
      → IsJournal w
      → Ends (λ _ journal. IsJournal journal) IsJournal (run_test origin events last w)
  unfolding run_test
  run_test-Turns [] last w l j = j
  run_test-Turns (event ∷ events) last w l j =
      Ends-bind Turns (λ _ journal. IsJournal journal) IsJournal (turn origin last event) _ w
        (turn-Turns last event w l j) (λ r w' k. went_on (run_test-Turns events) r w' k)
    where
      went_on :
          ((next : Option (BrowserAction S.Point)) (w : List (Effect S))
            → next ≡ last_applied w
            → IsJournal w
            → Ends (λ _ journal. IsJournal journal) IsJournal (run_test origin events next w))
          → (r : Turn S) (w' : List (Effect S)) → Turns r w'
          → Ends
              (λ _ journal. IsJournal journal)
              IsJournal
              (after_turn (run_test origin events) r w')
      went_on ih (Turn.done value) w' k = k
      went_on ih (Turn.next action) w' k = ih (some action) w' (k.0) (k.1)

  -- However the events go, the test ends, or still runs where they end. In any case, a state is
  -- observed with the action that was applied last before it; an action is applied with its own
  -- timeout, directly after a state was observed; and if that state was not within the origin's
  -- site, the action goes back.
  pub run_test-IsJournal :
      (events : List (Event S))
      → Ends (λ _ journal. IsJournal journal) IsJournal (run_test origin events none [])
  run_test-IsJournal events = run_test-Turns events none [] refl tt
