-- ===== src/Runner/Tests.antt =====
-- The theorems of `Runner` at a small setting.
use native.Mathlib.Nat.{mod-lt}
use bombadil.Common.{
  ℕ, ◌+◌, ◌%◌, ◌<◌, ◌≤◌, ◌^◌, ◌-◌, ◌⊎◌, inr, true, false, String, Option, none, some, List, [], ◌∷◌,
  ◌≡◌, refl, ◌==◌, arith, not, length,
}
use bombadil.Common.Run.{Run, ok, err, failure, Ends}
use bombadil.Tree.{
  Tree, leaf, branch, none_left, weighted, Rng, IsBounded, try_map, filter, prune, pick,
}
use bombadil.Tree.Leaves.{leaves, satisfying}
use bombadil.Tree.Pick.{IsSummable, weights}
use bombadil.Tree.Choice.{IsPositive}
use bombadil.Runner.Action.{Float, JsAction, BrowserAction, to_browser_action, action_timeout}
use bombadil.Runner.Apply as Apply
use bombadil.Runner.Apply.{Page, apply}
use bombadil.Runner.Outcome.{commands_of, outcome_of, Finishes}
use bombadil.Runner.Sends.{apply-Sends}
use bombadil.Runner.Url.{Url}
use bombadil.Runner.Loop.{
  Setting, PropertyValue, ControlFlow, StateChanged, Event, Effect, Failure, run_test,
  on_state_changed, violations_of,
}
use bombadil.Runner.Timeouts.{IsValid, to_browser_action-IsValid, duration, action_timeout_lem}
use bombadil.Runner.Journal.{IsJournal, run_test-IsJournal}
use bombadil.Runner.Progress.{Acts, is_allowed, on_state_changed-Acts}

abbrev counter : Rng
counter = record { State = ℕ; random_range = λ n r. (r % n, r + 1) }

counter-IsBounded : IsBounded counter
counter-IsBounded n r h = mod-lt r h

abbrev setting : Setting
setting = record {
  Host = ℕ;
  Point = ℕ;
  Snapshot = ℕ;
  Violation = ℕ;
  StopValue = ℕ;
  same_host = ◌==◌;
  len = λ text. 5;
  rng = counter;
}

abbrev origin : Url ℕ
origin = record { host = some 1; port = none }

abbrev elsewhere : Url ℕ
elsewhere = record { host = some 2; port = none }

abbrev actions : Tree (JsAction ℕ)
actions = branch (
    weighted 1 (leaf (JsAction.type_text "hello" (Float.non_negative 20 true)))
      (weighted 1 (leaf JsAction.back) none_left))

abbrev state_at : Url ℕ → Option (ControlFlow ℕ) → StateChanged setting
state_at url control = record {
  url = url;
  snapshots = some (7 ∷ []);
  step_result = some (record {
    properties = ("p", PropertyValue.false_with 3) ∷ ("q", PropertyValue.residual) ∷ [];
    actions = actions;
    has_pending = true;
  });
  control = control;
  apply = some tt;
  seed = 0;
}

abbrev session : List (Event setting)
session =
    Event.state_changed (state_at origin (some ControlFlow.continue))
    ∷ Event.state_changed (state_at elsewhere (some ControlFlow.continue))
    ∷ Event.state_changed (state_at origin (some (ControlFlow.stop 9)))
    ∷ []

session_runs :
    run_test origin session none []
    ≡ ok (inr (some 9)) (
        Effect.observe origin (some BrowserAction.back) (7 ∷ []) (("p", 3) ∷ [])
        ∷ Effect.apply BrowserAction.back 2000
        ∷ Effect.observe elsewhere
            (some (BrowserAction.type_text "hello" 20))
            (7 ∷ [])
            (("p", 3) ∷ [])
        ∷ Effect.apply (BrowserAction.type_text "hello" 20) 200
        ∷ Effect.observe origin none (7 ∷ []) (("p", 3) ∷ [])
        ∷ [])
unfolding run_test pick prune filter try_map to_browser_action action_timeout
session_runs = refl

run_test-IsJournal_example :
    Ends
      (λ _ journal. IsJournal origin journal)
      (IsJournal origin)
      (run_test origin session none [])
run_test-IsJournal_example = run_test-IsJournal origin session

abbrev converted : Tree (BrowserAction ℕ)
converted = branch (
    weighted 1 (leaf (BrowserAction.type_text "hello" 20))
      (weighted 1 (leaf BrowserAction.back) none_left))

abbrev away : StateChanged setting
away = state_at elsewhere (some ControlFlow.continue)

on_state_changed-Acts_example :
    Acts origin none away []
      (Effect.observe elsewhere none (7 ∷ []) (("p", 3) ∷ []) ∷ [])
      converted
      (on_state_changed origin none away [])
    ⊎ ((on_state_changed origin none away []
          ≡ err Failure.no_actions (Effect.observe elsewhere none (7 ∷ []) (("p", 3) ∷ []) ∷ []))
        × (satisfying (is_allowed setting origin elsewhere) (leaves converted []) ≡ []))
unfolding violations_of try_map to_browser_action IsPositive IsSummable weights
on_state_changed-Acts_example =
    on_state_changed-Acts origin none away [] (7 ∷ []) _ converted counter-IsBounded (record {
      extracts = refl;
      verifies = refl;
      converts = λ v. refl;
      continues = refl;
      pending = refl;
      applies = refl;
      positive = omega arith;
      summable = omega arith;
    })

abbrev enter : JsAction ℕ
enter = JsAction.press_key (Float.non_negative 13 false)

to_browser_action-IsValid_example :
    Ends (λ a w'. IsValid a × (w' ≡ 0)) (λ (w' : ℕ). w' ≡ 0) (to_browser_action enter 0)
to_browser_action-IsValid_example = to_browser_action-IsValid enter 0

abbrev typing : BrowserAction ℕ
typing = BrowserAction.type_text "hello" 20

abbrev byte_length : String → ℕ
byte_length text = 5

action_timeout_lem_example :
    (action_timeout byte_length typing < 2 ^ 64)
    × (50 ≤ action_timeout byte_length typing)
    × ((duration byte_length typing + 50 ≤ action_timeout byte_length typing)
        ⊎ (action_timeout byte_length typing ≡ 2 ^ 64 - 1))
action_timeout_lem_example = action_timeout_lem byte_length typing

-- A page that refuses the third command.
abbrev stubborn : Page ℕ
stubborn = record {
  accepts = λ sent c. not (length sent == 2);
  current_index = 0;
  entries = 5 ∷ 6 ∷ [];
  root = 1;
  node_of = λ selector. 2;
  negate = λ x. x;
  speed_of = λ x. 10;
}

fails_second_click :
    ◌≡◌ {A = Option Apply.Failure}
      (failure (apply stubborn (BrowserAction.double_click "b" none 3 50) []))
      (some Apply.Failure.page_failed)
unfolding apply
fails_second_click = refl

-- At the first entry of the history nothing is sent but the question for it.
fails_alone :
    ◌≡◌ {A = Run (List (Apply.Command ℕ)) Apply.Failure (Unit {0})}
      (apply stubborn BrowserAction.back [])
      (err Apply.Failure.at_first_entry (Apply.Command.get_navigation_history ∷ []))
unfolding apply
fails_alone = refl

apply-Sends_example :
    Finishes stubborn
      (commands_of stubborn (BrowserAction.type_text "ab" 9))
      (outcome_of stubborn (BrowserAction.type_text "ab" 9))
      []
      (apply stubborn (BrowserAction.type_text "ab" 9) [])
apply-Sends_example = apply-Sends stubborn (BrowserAction.type_text "ab" 9) []
