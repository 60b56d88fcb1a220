-- ===== src/Runner/Loop.antt =====
-- lib/bombadil/src/runner.rs: `Runner::run_test`. What the browser, the verifier and the observer
-- answer comes with each event; what the runner does to them is a list of effects, the latest first.
use bombadil.Common.{
  ℕ, Bool, not, ◌⊎◌, inl, inr, String, Option, none, some, List, [], ◌∷◌, if◌then◌else◌,
}
use bombadil.Common.Run.{Run, ok, err, out_of_fuel, Comp, return, fail, emit, expect, ◌>>=◌, ◌>>◌}
use bombadil.Tree.{Tree, Rng, PickError, try_map, filter, prune, pick}
use bombadil.Runner.Action.{
  JsAction, BrowserAction, ActionError, to_browser_action, is_back, action_timeout,
}
use bombadil.Runner.Url.{Url, is_within_domain}

-- The types that the runner passes on, the comparison of hosts, the length of a text, and the source
-- of random numbers.
pub record Setting : Type 1 where
  pub Host : Type 0
  pub Point : Type 0
  pub Snapshot : Type 0
  pub Violation : Type 0
  pub StopValue : Type 0
  pub same_host : Host → Host → Bool
  pub len : String → ℕ
  pub rng : Rng

-- `PropertyValue` of lib/bombadil/src/specification/worker.rs.
pub data PropertyValue (V : Type 0) : Type 0 where
  true_value residual : PropertyValue V
  false_with : V → PropertyValue V

pub data ControlFlow (T : Type 0) : Type 0 where
  continue : ControlFlow T
  stop : T → ControlFlow T

-- `PropertyValue::False` of each property, by name.
unfoldable pub violations_of : {V : Type 0} → List (String × PropertyValue V) → List (String × V)
violations_of [] = []
violations_of ((name, PropertyValue.false_with v) ∷ rest) = (name, v) ∷ violations_of rest
violations_of (_ ∷ rest) = violations_of rest

-- The tree that stays within the origin's site.
unfoldable pub stay_within :
    {Host Point : Type 0}
    → (Host → Host → Bool)
    → Url Host
    → Url Host
    → Tree (BrowserAction Point)
    → Tree (BrowserAction Point)
unfolding is_within_domain filter
stay_within same_host origin url tree =
    if not (is_within_domain same_host url origin) then filter is_back tree else tree

module _ (S : Setting) where
  -- `StepResult` of lib/bombadil/src/specification/worker.rs.
  pub record StepResult : Type 0 where
    pub properties : List (String × PropertyValue S.Violation)
    pub actions : Tree (JsAction S.Point)
    pub has_pending : Bool

  -- A state of the browser, and what is answered while it is handled; `none` is a failure.
  pub record StateChanged : Type 0 where
    pub url : Url S.Host
    pub snapshots : Option (List S.Snapshot)
    pub step_result : Option StepResult
    pub control : Option (ControlFlow S.StopValue)
    pub apply : Option (Unit {0})
    pub seed : S.rng.State

  pub data Event : Type 0 where
    state_changed : StateChanged → Event
    error : Event
    closed : Event
    -- The answer of `on_interrupted`.
    interrupted : Option S.StopValue → Event

  pub data Effect : Type 0 where
    -- `on_new_state`, with the page's URL, the last action, the snapshots and the violations.
    observe :
        Url S.Host
        → Option (BrowserAction S.Point)
        → List S.Snapshot
        → List (String × S.Violation)
        → Effect
    apply : BrowserAction S.Point → ℕ → Effect

  pub data Failure : Type 0 where
    extractors_failed verifier_failed observer_failed browser_failed no_actions : Failure
    invalid_action : ActionError → Failure
    no_pick : PickError → Failure
    state_machine_error browser_closed : Failure

  -- One turn of the loop ends the test, or goes on with the last action.
  pub data Turn : Type 0 where
    done : Option S.StopValue → Turn
    next : BrowserAction S.Point → Turn

abbrev pub Step : Setting → Type 0 → Type 0
Step S A = Comp (List (Effect S)) (Failure S) A

module _ {S : Setting} where
  abbrev pub converted_run : {A : Type 0} → Run (Unit {0}) ActionError A → Step S A
  converted_run (ok a _) w = ok a w
  converted_run (err e _) w = err (Failure.invalid_action e) w
  converted_run out_of_fuel w = out_of_fuel

  abbrev pub convert : JsAction S.Point → Step S (BrowserAction S.Point)
  convert action = converted_run (to_browser_action action tt)

  abbrev pub picked_run : {A : Type 0} → Run S.rng.State PickError A → Step S A
  picked_run (ok a _) w = ok a w
  picked_run (err e _) w = err (Failure.no_pick e) w
  picked_run out_of_fuel w = out_of_fuel

  -- From the pruned tree on.
  unfoldable pub act : StateChanged S → Tree (BrowserAction S.Point) → Step S (Turn S)
  unfolding pick action_timeout
  act inputs tree = do
    action ← picked_run (pick S.rng tree inputs.seed)
    expect inputs.apply Failure.browser_failed
    emit (Effect.apply action (action_timeout S.len action))
    return (Turn.next action)

  -- From the observer's answer on.
  unfoldable pub proceed :
      StateChanged S
      → Bool
      → Tree (BrowserAction S.Point)
      → ControlFlow S.StopValue
      → Step S (Turn S)
  unfolding act prune
  proceed inputs has_pending tree (ControlFlow.stop value) = return (Turn.done (some value))
  proceed inputs has_pending tree ControlFlow.continue =
      if not has_pending
      then return (Turn.done none)
      else expect (prune tree) Failure.no_actions >>= act inputs

  -- `BrowserEvent::StateChanged`.
  unfoldable pub on_state_changed :
      Url S.Host → Option (BrowserAction S.Point) → StateChanged S → Step S (Turn S)
  unfolding proceed stay_within try_map violations_of
  on_state_changed origin last_action inputs = do
    snapshots ← expect inputs.snapshots Failure.extractors_failed
    result ← expect inputs.step_result Failure.verifier_failed
    action_tree ← try_map convert result.actions
    emit (Effect.observe inputs.url last_action snapshots (violations_of result.properties))
    control ← expect inputs.control Failure.observer_failed
    proceed inputs result.has_pending (stay_within S.same_host origin inputs.url action_tree)
        control

  unfoldable pub turn : Url S.Host → Option (BrowserAction S.Point) → Event S → Step S (Turn S)
  unfolding on_state_changed
  turn origin last_action (Event.state_changed inputs) = on_state_changed origin last_action inputs
  turn origin last_action Event.error = fail Failure.state_machine_error
  turn origin last_action Event.closed = fail Failure.browser_closed
  turn origin last_action (Event.interrupted value) = do
    v ← expect value Failure.observer_failed
    return (Turn.done (some v))

  -- The rest of the loop, after a turn: `go_on` is the next round.
  abbrev pub after_turn :
      (Option (BrowserAction S.Point)
        → Step S (Option (BrowserAction S.Point) ⊎ Option S.StopValue))
      → Turn S
      → Step S (Option (BrowserAction S.Point) ⊎ Option S.StopValue)
  after_turn go_on (Turn.done value) = return (inr value)
  after_turn go_on (Turn.next action) = go_on (some action)

  -- The loop, over the events that come: where they end, the test still runs, with its last action.
  unfoldable pub run_test :
      Url S.Host
      → List (Event S)
      → Option (BrowserAction S.Point)
      → Step S (Option (BrowserAction S.Point) ⊎ Option S.StopValue)
  unfolding turn
  run_test origin [] last_action = return (inl last_action)
  run_test origin (event ∷ events) last_action =
      turn origin last_action event >>= after_turn (run_test origin events)
