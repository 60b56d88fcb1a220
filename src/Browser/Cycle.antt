-- ===== src/Browser/Cycle.antt =====
-- One round of lib/bombadil/src/browser.rs: from a reported state through an action to the next
-- reported state.
use bombadil.Common.{true, none, some, List, [], ◌∷◌, ◌≡◌, refl, ◌==◌, ==_iff}
use bombadil.Common.Run.{ok}
use bombadil.Browser.Protocol.{
  Protocol, next, Timeout, StateRequestReason, InnerStateKind, InnerStateShared, InnerState,
  InnerEvent, Effect, BrowserContext, ScreenshotResult, Answers,
}
use bombadil.Browser.Capture.{capture_browser_state, current}
use bombadil.Browser.Machine.{process_event, process_events}

module _ {P : Protocol} where
  -- The page resumes, has an execution context `id`, gives a screenshot and can be read at `frame`.
  pub record Responds (answers : Answers P) (id : P.ContextId) (screenshot : P.Screenshot)
      (frame : P.CallFrameId) (reading : P.Reading) : Type 0 where
    pub resumes : answers.resume ≡ some tt
    pub has_context : answers.execution_context ≡ some (some id)
    pub takes_screenshot : answers.screenshot ≡ ScreenshotResult.taken screenshot
    pub reads : answers.current frame ≡ some reading
    pub sends : answers.send_state_changed ≡ some tt

  abbrev pub round :
      Answers P
      → P.BrowserAction
      → Timeout
      → P.PausedReason
      → P.CallFrameId
      → InnerState P
      → List (Answers P × InnerEvent P)
  round answers action timeout reason frame s =
      (answers, InnerEvent.action_accepted action timeout)
      ∷ (answers, InnerEvent.resumed)
      ∷ (answers, InnerEvent.action_applied s.shared.generation)
      ∷ (answers, InnerEvent.state_requested StateRequestReason.timeout s.shared.generation)
      ∷ (answers, InnerEvent.paused reason (some frame))
      ∷ []

  -- A page that responds, paused with a state reported, takes an action through a whole round: it
  -- is resumed, the action is applied, and after the action's timeout a state is reported with a new
  -- screenshot and with the exceptions that were held. The page is paused again two generations
  -- later, with nothing held.
  pub process_events-round :
      (context : BrowserContext P) (answers : Answers P) (action : P.BrowserAction)
      (timeout : Timeout) (reason : P.PausedReason) (id : P.ContextId) (screenshot : P.Screenshot)
      (frame : P.CallFrameId) (reading : P.Reading) (shared : InnerStateShared P)
      (w : List (Effect P))
      → Responds answers id screenshot frame reading
      → P.is_other reason ≡ true
      → let s : InnerState P = record { kind = InnerStateKind.paused; shared = shared } in
        process_events context (round answers action timeout reason frame s) s w
        ≡ ok
            (record {
              kind = InnerStateKind.paused;
              shared = record {
                generation = next (next shared.generation);
                console_entries = [];
                exceptions = [];
                screenshot = none;
              };
            })
            (Effect.start_watchdog (next (next shared.generation))
              ∷ Effect.state_changed (record {
                reading = reading;
                console_entries = [];
                exceptions = shared.exceptions;
                screenshot = screenshot;
              })
              ∷ Effect.evaluate_debugger id
              ∷ Effect.apply_action action timeout shared.generation
              ∷ Effect.resume_page
              ∷ w)
  unfolding process_events process_event capture_browser_state current
  process_events-round context answers action timeout reason id screenshot frame reading shared w r
        o =
      let same : (shared.generation == shared.generation) ≡ true = (==_iff _ _).1 refl in
      rw (r.resumes) (
        rw same (rw (r.has_context) (rw (r.takes_screenshot) (rw o (rw (r.reads) (rw (r.sends)))))))
