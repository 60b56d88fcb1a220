-- ===== src/Browser/Events.antt =====
-- What `process_event` of lib/bombadil/src/browser.rs keeps, over one event and over a whole run.
use mathlib.Core.List.{append-nil, append_assoc}
use bombadil.Common.{
  ◌+◌, ◌^◌, ◌≤◌, ◌<◌, List, [], ◌∷◌, ◌++◌, ◌≡◌, refl, sym, ◌∙◌, ap, arith, length,
}
use bombadil.Common.Run.{Ensures, Ensures-if, Ensures-bind, Ensures-map}
use bombadil.Browser.Protocol.{
  Protocol, InnerState, InnerEvent, Effect, BrowserContext, Answers, default,
}
use bombadil.Browser.Machine.{
  on_frame_requested_navigation, on_target_destroyed, process_event, process_events,
}
use bombadil.Browser.Moves.{reported, thrown, HasScreenshot, Moves, quietly, stays}
use bombadil.Browser.Handlers.{
  requested, on_paused-Moves, accepted, on_resumed-Moves, applied, on_loaded-Moves, download,
  console, exception, navigated,
}

module _ {P : Protocol} (context : BrowserContext P) (answers : Answers P) where
  -- Each event that is handled without a failure keeps the account of exceptions, the screenshot of
  -- a page that is about to pause, and the generation or its successor.
  pub process_event-Moves :
      (s : InnerState P) (e : InnerEvent P) (w : List (Effect P))
      → Ensures (Moves s w (thrown e)) (process_event context answers s e w)
  unfolding process_event on_frame_requested_navigation on_target_destroyed
  process_event-Moves s (InnerEvent.state_requested reason g) w = requested context answers s g w
  process_event-Moves s (InnerEvent.paused reason o) w =
      on_paused-Moves context answers s reason o w
  process_event-Moves s (InnerEvent.action_accepted action timeout) w =
      accepted context answers s.shared s.kind action timeout w
  process_event-Moves s InnerEvent.resumed w = on_resumed-Moves context answers s.shared s.kind w
  process_event-Moves s (InnerEvent.action_applied g) w =
      applied context answers s.shared s.kind g w
  process_event-Moves s InnerEvent.loaded w = on_loaded-Moves context answers s.shared s.kind w
  process_event-Moves s (InnerEvent.frame_requested_navigation f u) w =
      Ensures-if (Moves s w []) (P.same_frame f context.frame_id) _ _ w
        (λ _. quietly _ _ _ _ (λ e. cc) refl refl refl refl) (λ _. stays s w)
  process_event-Moves s (InnerEvent.download_will_begin f u) w =
      download context answers s.shared s.kind f u w
  process_event-Moves s (InnerEvent.console_entry x) w = console context answers s.shared s.kind x w
  process_event-Moves s (InnerEvent.exception_thrown x) w = exception context answers s x w
  process_event-Moves s (InnerEvent.frame_navigated f t) w = navigated context answers s f t w
  process_event-Moves s (InnerEvent.target_destroyed t) w =
      Ensures-if (Moves s w []) (P.same_target t context.target_id) _ _ w (λ _. tt) (λ _. stays s w)

module _ {P : Protocol} (context : BrowserContext P) where
  abbrev pub all_thrown : List (Answers P × InnerEvent P) → List P.Exception
  all_thrown [] = []
  all_thrown ((_, event) ∷ events) = thrown event ++ all_thrown events

  -- What a run keeps, from `s` with `w` sent on.
  pub record Follows (s : InnerState P) (w : List (Effect P))
      (events : List (Answers P × InnerEvent P)) (s' : InnerState P) (w' : List (Effect P))
      : Type 0 where
    pub screenshot : HasScreenshot s → HasScreenshot s'
    pub accounted :
        reported w' ++ s'.shared.exceptions
        ≡ (reported w ++ s.shared.exceptions) ++ all_thrown events
    pub generation :
        s.shared.generation + length events < 2 ^ 64
        → (s.shared.generation ≤ s'.shared.generation)
          × (s'.shared.generation ≤ s.shared.generation + length events)

  process_events-Follows :
      (events : List (Answers P × InnerEvent P)) (s : InnerState P) (w : List (Effect P))
      → Ensures (Follows s w events) (process_events context events s w)
  unfolding process_events
  process_events-Follows [] s w = record {
    screenshot = λ h. h;
    accounted = sym (append-nil _);
    generation = λ _. omega arith;
  }
  process_events-Follows ((answers, event) ∷ events) s w =
      Ensures-bind (Moves s w (thrown event)) (Follows s w _)
        (process_event context answers s event) _ w (process_event-Moves context answers s event w)
        λ t v m.
          Ensures-map (Follows t v events) (Follows s w _) _
            (λ s' w' f. record {
              screenshot = λ h. f.screenshot (m.screenshot h);
              accounted =
                  f.accounted
                  ∙ ap (◌++ all_thrown events) m.accounted
                  ∙ append_assoc (reported w ++ s.shared.exceptions) (thrown event)
                      (all_thrown events);
              generation = λ h. ground (arith, m.generation, f.generation);
            })
            (process_events-Follows events t v)

  -- Over any events, as long as none fails: each exception that was thrown has been reported once,
  -- in order, but for those that the state still holds; a state that is about to pause has a
  -- screenshot; and over fewer than 2 ^ 64 events the generation does not pass their number.
  pub run-Follows :
      (events : List (Answers P × InnerEvent P))
      → Ensures
          (λ s' w'.
            (reported w' ++ s'.shared.exceptions ≡ all_thrown events)
            × HasScreenshot s'
            × (length events < 2 ^ 64 → s'.shared.generation ≤ length events))
          (process_events context events default [])
  unfolding reported
  run-Follows events =
      Ensures-map (Follows default [] events) _ _
        (λ s' w' f. (f.accounted, f.screenshot (λ e. cc), (λ h. ground (arith, f.generation))))
        (process_events-Follows events default [])
