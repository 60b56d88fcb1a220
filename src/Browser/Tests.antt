-- ===== src/Browser/Tests.antt =====
-- The theorems of `Browser` at a small protocol, where everything is a number.
use bombadil.Common.{ℕ, ◌==◌, some, none, [], ◌∷◌, List, ◌≡◌, refl, ◌++◌, length, ◌<◌, ◌^◌, ◌≤◌}
use bombadil.Common.Run.{ok, Ensures}
use bombadil.Browser.Protocol.{
  Protocol, StateRequestReason, NavigationType, InnerStateKind, InnerState, InnerEvent, Effect,
  BrowserContext, ScreenshotResult, Answers, default, next,
}
use bombadil.Browser.Capture.{capture_browser_state, current}
use bombadil.Browser.Machine.{process_event, process_events}
use bombadil.Browser.Moves.{reported, Moves, thrown, HasScreenshot}
use bombadil.Browser.Events.{process_event-Moves, run-Follows, all_thrown}
use bombadil.Browser.Total.{Succeeds, process_event-Succeeds}
use bombadil.Browser.Cycle.{round, process_events-round}
use bombadil.Browser.Unhandled.{ends_unhandled, is_unhandled, process_event_unhandled}
use bombadil.Browser.Watchdog.{IgnoresWatchdog, paused-IgnoresWatchdog}

abbrev numbers : Protocol
numbers = record {
  BrowserAction = ℕ;
  ConsoleEntry = ℕ;
  Exception = ℕ;
  Screenshot = ℕ;
  CallFrameId = ℕ;
  PausedReason = ℕ;
  ContextId = ℕ;
  FrameId = ℕ;
  TargetId = ℕ;
  Reading = ℕ;
  is_other = λ r. r == 0;
  same_frame = ◌==◌;
  same_target = ◌==◌;
}

abbrev main_frame : BrowserContext numbers
main_frame = record { frame_id = 1; target_id = 2 }

abbrev willing : Answers numbers
willing = record {
  resume = some tt;
  execution_context = some (some 3);
  screenshot = ScreenshotResult.taken 4;
  current = λ frame. some 5;
  send_state_changed = some tt;
  send_inner_event = some tt;
  document = some tt;
}

-- The page loads, throws an exception, which makes it pause, and is reported.
abbrev session : List (Answers numbers × InnerEvent numbers)
session =
    (willing, InnerEvent.frame_requested_navigation 1 "a")
    ∷ (willing, InnerEvent.frame_navigated 1 NavigationType.navigation)
    ∷ (willing, InnerEvent.loaded)
    ∷ (willing, InnerEvent.exception_thrown 7)
    ∷ (willing, InnerEvent.paused 0 (some 6))
    ∷ (willing, InnerEvent.exception_thrown 8)
    ∷ []

abbrev after_session : InnerState numbers
after_session = record {
  kind = InnerStateKind.paused;
  shared = record { generation = 2; console_entries = []; exceptions = 8 ∷ []; screenshot = none };
}

session_runs :
    process_events main_frame session default []
    ≡ ok after_session (
        Effect.start_watchdog 2
        ∷ Effect.state_changed
            (record { reading = 5; console_entries = []; exceptions = 7 ∷ []; screenshot = 4 })
        ∷ Effect.evaluate_debugger 3
        ∷ Effect.request StateRequestReason.loaded 0
        ∷ Effect.get_document
        ∷ [])
unfolding process_events process_event capture_browser_state current
session_runs = refl

run-Follows_example :
    Ensures
      (λ s' w'.
        (reported w' ++ s'.shared.exceptions ≡ all_thrown main_frame session)
        × HasScreenshot s'
        × (length session < 2 ^ 64 → s'.shared.generation ≤ length session))
      (process_events main_frame session default [])
run-Follows_example = run-Follows main_frame session

process_event-Moves_example :
    Ensures
      (Moves after_session [] (thrown {P = numbers} (InnerEvent.exception_thrown 9)))
      (process_event main_frame willing after_session (InnerEvent.exception_thrown 9) [])
process_event-Moves_example =
    process_event-Moves main_frame willing after_session (InnerEvent.exception_thrown 9) []

process_event_unhandled_example :
    ends_unhandled (
      process_event main_frame willing
        (record { kind = InnerStateKind.running; shared = after_session.shared })
        (InnerEvent.download_will_begin 1 "a")
        [])
    ≡ is_unhandled {P = numbers} (InnerEvent.download_will_begin 1 "a") InnerStateKind.running
process_event_unhandled_example =
    process_event_unhandled main_frame willing after_session.shared [] InnerStateKind.running
      (InnerEvent.download_will_begin 1 "a")

process_events-round_example :
    process_events main_frame (round willing 10 500 0 6 after_session) after_session []
    ≡ ok
        (record {
          kind = InnerStateKind.paused;
          shared = record {
            generation = next (next 2);
            console_entries = [];
            exceptions = [];
            screenshot = none;
          };
        })
        (Effect.start_watchdog (next (next 2))
          ∷ Effect.state_changed
              (record { reading = 5; console_entries = []; exceptions = 8 ∷ []; screenshot = 4 })
          ∷ Effect.evaluate_debugger 3
          ∷ Effect.apply_action 10 500 2
          ∷ Effect.resume_page
          ∷ [])
process_events-round_example =
    process_events-round main_frame willing 10 500 0 3 4 6 5 after_session.shared []
      (record {
        resumes = refl;
        has_context = refl;
        takes_screenshot = refl;
        reads = refl;
        sends = refl;
      })
      refl

abbrev about_to_pause : InnerState numbers
about_to_pause = record {
  kind = InnerStateKind.pausing;
  shared = record { generation = 1; console_entries = []; exceptions = []; screenshot = some 4 };
}

paused-IgnoresWatchdog_example :
    Ensures
      (IgnoresWatchdog main_frame willing willing)
      (process_event main_frame willing about_to_pause (InnerEvent.paused 0 (some 6)) [])
paused-IgnoresWatchdog_example =
    paused-IgnoresWatchdog main_frame willing willing about_to_pause 0 6 []

process_event-Succeeds_example :
    Succeeds
      (process_event main_frame willing
        (record { kind = InnerStateKind.running; shared = after_session.shared })
        (InnerEvent.exception_thrown 9))
      []
process_event-Succeeds_example =
    process_event-Succeeds main_frame willing
      (record {
        context = some 3;
        has_context = refl;
        reading = λ frame. 5;
        reads = λ frame. refl;
        resumes = refl;
        sends_state = refl;
        sends_event = refl;
        gives_document = refl;
      })
      InnerStateKind.running after_session.shared (InnerEvent.exception_thrown 9) [] refl tt
