-- ===== src/Browser/Watchdog.antt =====
-- The watchdog that `process_event` of lib/bombadil/src/browser.rs starts with each reported state.
use bombadil.Common.{some, List, ◌≡◌, refl, ==_iff}
use bombadil.Common.Run.{
  Run, ok, err, out_of_fuel, Ensures, Ensures-expect, Ensures-if, Ensures-bind,
}
use bombadil.Browser.Protocol.{
  Protocol, StateRequestReason, InnerStateKind, InnerState, InnerEvent, Effect, BrowserContext,
  Answers, Failure,
}
use bombadil.Browser.Capture.{current}
use bombadil.Browser.Machine.{process_event, on_state_requested}

module _ {P : Protocol} (context : BrowserContext P) (answers answers' : Answers P) where
  -- The state is paused, and its watchdog's request changes nothing and sends nothing.
  abbrev pub IgnoresWatchdog : InnerState P → List (Effect P) → Type 0
  IgnoresWatchdog s w =
      (s.kind ≡ InnerStateKind.paused)
      × (process_event context answers' s
            (InnerEvent.state_requested StateRequestReason.watchdog s.shared.generation) w
          ≡ ok s w)

  ignores :
      (s : InnerState P) (w : List (Effect P))
      → s.kind ≡ InnerStateKind.paused
      → IgnoresWatchdog s w
  unfolding process_event on_state_requested
  ignores s w k = (k, rw (k, (==_iff s.shared.generation s.shared.generation).1 refl) refl)

  anything : {A : Type 0} (r : Run (List (Effect P)) (Failure P) A) → Ensures (λ _ _. Unit) r
  anything (ok _ _) = tt
  anything (err _ _) = tt
  anything out_of_fuel = tt

  -- If nothing happens after a state is reported, the request of the watchdog that was started with
  -- it captures no new state, whatever the page would answer.
  pub paused-IgnoresWatchdog :
      (s : InnerState P) (reason : P.PausedReason) (frame : P.CallFrameId) (w : List (Effect P))
      → Ensures IgnoresWatchdog
          (process_event context answers s (InnerEvent.paused reason (some frame)) w)
  unfolding process_event
  paused-IgnoresWatchdog s reason frame w =
      Ensures-if IgnoresWatchdog (P.is_other reason) _ _ w
        (λ _. Ensures-expect IgnoresWatchdog s.shared.screenshot _ _ w λ screenshot _.
          Ensures-bind (λ _ _. Unit) IgnoresWatchdog
            (current answers frame s.shared.console_entries s.shared.exceptions screenshot) _ w
            (anything _)
            λ state w' _.
              Ensures-expect IgnoresWatchdog answers.send_state_changed _ _ w'
                λ _ _. ignores _ _ refl)
        (λ _. tt)
