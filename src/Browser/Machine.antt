-- ===== src/Browser/Machine.antt =====
-- lib/bombadil/src/browser.rs: `process_event` and the loop of
-- `run_state_machine`. The arms of the one match of `process_event` are split by event, each with
-- its arms in the source's order; what no arm takes is an unhandled transition.
use text.Mathlib.Text.{◌==◌ as str_eq}
use bombadil.Common.{
  Bool, true, false, not, ◌&&◌, Option, none, some, List, [], ◌∷◌, ◌++◌, String, ◌==◌,
  if◌then◌else◌,
}
use bombadil.Common.Run.{return, fail, emit, expect, ◌>>=◌, ◌>>◌}
use bombadil.Browser.Protocol.{
  Protocol, Generation, next, Timeout, StateRequestReason, NavigationType, InnerStateKind,
  InnerStateShared, InnerState, InnerEvent, Effect, BrowserContext, Answers, Failure,
}
use bombadil.Browser.Capture.{Step, capture_browser_state, current}

module _ {P : Protocol} where
  -- `matches!(state.kind, Navigating { .. } | Loading | Paused | Pausing)`.
  abbrev pub is_busy : InnerStateKind P → Bool
  is_busy (InnerStateKind.navigating _) = true
  is_busy InnerStateKind.loading = true
  is_busy InnerStateKind.paused = true
  is_busy InnerStateKind.pausing = true
  is_busy _ = false

  unfoldable pub on_state_requested : Answers P → InnerState P → Generation → Step P (InnerState P)
  on_state_requested answers s generation =
      if not (s.shared.generation == generation)
      then return s
      else if is_busy s.kind
      then return s
      else capture_browser_state answers s

  unfoldable pub on_paused_in_frame :
      Answers P → InnerStateShared P → P.CallFrameId → Step P (InnerState P)
  unfolding current
  on_paused_in_frame answers shared frame = do
    screenshot ← expect shared.screenshot Failure.no_screenshot
    state ← current answers frame shared.console_entries shared.exceptions screenshot
    expect answers.send_state_changed Failure.channel_closed
    emit (Effect.state_changed state)
    emit (Effect.start_watchdog (next shared.generation))
    return (record {
      kind = InnerStateKind.paused;
      shared = record {
        generation = next shared.generation;
        console_entries = [];
        exceptions = [];
        screenshot = none;
      };
    })

  unfoldable pub on_paused :
      Answers P → InnerState P → P.PausedReason → Option P.CallFrameId → Step P (InnerState P)
  unfolding on_paused_in_frame
  on_paused answers s reason none = do
    expect answers.resume Failure.protocol_error
    emit Effect.resume_page
    capture_browser_state answers (record s { kind = InnerStateKind.running })
  on_paused answers s reason (some frame) =
      if P.is_other reason
      then on_paused_in_frame answers s.shared frame
      else fail Failure.unexpected_pause_reason

  unfoldable pub on_action_accepted :
      Answers P
      → InnerStateKind P
      → InnerStateShared P
      → P.BrowserAction
      → Timeout
      → Step P (InnerState P)
  on_action_accepted answers InnerStateKind.paused shared action timeout = do
    expect answers.resume Failure.protocol_error
    emit Effect.resume_page
    return (record { kind = InnerStateKind.resuming action timeout; shared = shared })
  on_action_accepted answers InnerStateKind.loading shared action timeout =
      return (record { kind = InnerStateKind.loading; shared = shared })
  on_action_accepted answers (InnerStateKind.navigating url) shared action timeout =
      return (record { kind = InnerStateKind.navigating url; shared = shared })
  on_action_accepted answers InnerStateKind.pausing shared action timeout =
      return (record { kind = InnerStateKind.pausing; shared = shared })
  on_action_accepted answers _ shared action timeout = fail Failure.unhandled_transition

  unfoldable pub on_resumed : InnerStateKind P → InnerStateShared P → Step P (InnerState P)
  on_resumed InnerStateKind.pausing shared =
      return (record { kind = InnerStateKind.pausing; shared = shared })
  on_resumed InnerStateKind.running shared =
      return
        (record { kind = InnerStateKind.running; shared = record shared { console_entries = [] } })
  on_resumed (InnerStateKind.resuming action timeout) shared = do
    emit (Effect.apply_action action timeout shared.generation)
    return
        (record { kind = InnerStateKind.acting; shared = record shared { console_entries = [] } })
  on_resumed _ shared = fail Failure.unhandled_transition

  unfoldable pub on_action_applied :
      InnerStateKind P → InnerStateShared P → Generation → Step P (InnerState P)
  on_action_applied InnerStateKind.acting shared generation = return (record {
    kind =
        if shared.generation == generation then InnerStateKind.running else InnerStateKind.acting;
    shared = shared;
  })
  on_action_applied kind shared generation = return (record { kind = kind; shared = shared })

  unfoldable pub on_loaded : Answers P → InnerStateShared P → Step P (InnerState P)
  on_loaded answers shared = do
    expect answers.send_inner_event Failure.channel_closed
    emit (Effect.request StateRequestReason.loaded shared.generation)
    return (record { kind = InnerStateKind.running; shared = shared })

  unfoldable pub on_frame_requested_navigation :
      BrowserContext P → InnerState P → P.FrameId → String → Step P (InnerState P)
  on_frame_requested_navigation context s frame_id url =
      if P.same_frame frame_id context.frame_id
      then return (record s { kind = InnerStateKind.navigating url })
      else return s

  -- `let _ = context.inner_events_sender.send(…)`.
  abbrev pub try_request : Option (Unit {0}) → StateRequestReason → Generation → Step P (Unit {0})
  try_request (some _) reason generation = emit (Effect.request reason generation)
  try_request none reason generation = return tt

  unfoldable pub on_download_will_begin :
      BrowserContext P
      → Answers P
      → InnerStateKind P
      → InnerStateShared P
      → P.FrameId
      → String
      → Step P (InnerState P)
  on_download_will_begin context answers (InnerStateKind.navigating url) shared frame_id
        url_download =
      if P.same_frame frame_id context.frame_id && str_eq url url_download
      then (do
        try_request answers.send_inner_event StateRequestReason.file_download shared.generation
        return (record { kind = InnerStateKind.running; shared = shared }))
      else return (record { kind = InnerStateKind.navigating url; shared = shared })
  on_download_will_begin context answers _ shared frame_id url_download =
      fail Failure.unhandled_transition

  unfoldable pub on_console_entry :
      InnerStateKind P → InnerStateShared P → P.ConsoleEntry → Step P (InnerState P)
  on_console_entry (InnerStateKind.navigating url) shared entry = return (record {
    kind = InnerStateKind.navigating url;
    shared = record shared { console_entries = [] };
  })
  on_console_entry kind shared entry = return (record {
    kind = kind;
    shared = record shared { console_entries = shared.console_entries ++ entry ∷ [] };
  })

  abbrev pub is_running : InnerStateKind P → Bool
  is_running InnerStateKind.running = true
  is_running _ = false

  unfoldable pub on_exception_thrown :
      Answers P → InnerState P → P.Exception → Step P (InnerState P)
  on_exception_thrown answers s exception =
      let shared' : InnerStateShared P = record s.shared {
        exceptions = s.shared.exceptions ++ exception ∷ [];
      } in
      let s' : InnerState P = record { kind = s.kind; shared = shared' } in
      if is_running s.kind then capture_browser_state answers s' else return s'

  unfoldable pub on_main_frame_navigated :
      Answers P → InnerStateShared P → NavigationType → Step P (InnerState P)
  on_main_frame_navigated answers shared NavigationType.navigation =
      return (record { kind = InnerStateKind.loading; shared = shared })
  on_main_frame_navigated answers shared NavigationType.back_forward_cache_restore = do
    expect answers.send_inner_event Failure.channel_closed
    emit (Effect.request StateRequestReason.back_forward_cache_restore shared.generation)
    return (record { kind = InnerStateKind.running; shared = shared })

  unfoldable pub on_frame_navigated :
      BrowserContext P
      → Answers P
      → InnerState P
      → P.FrameId
      → NavigationType
      → Step P (InnerState P)
  unfolding on_main_frame_navigated
  on_frame_navigated context answers s frame_id navigation_type = do
    expect answers.document Failure.protocol_error
    emit Effect.get_document
    if P.same_frame frame_id context.frame_id
        then on_main_frame_navigated answers s.shared navigation_type
        else return s

  unfoldable pub on_target_destroyed :
      BrowserContext P → InnerState P → P.TargetId → Step P (InnerState P)
  on_target_destroyed context s target_id =
      if P.same_target target_id context.target_id then fail Failure.target_lost else return s

  unfoldable pub process_event :
      BrowserContext P → Answers P → InnerState P → InnerEvent P → Step P (InnerState P)
  unfolding on_state_requested on_paused on_action_accepted on_resumed on_action_applied on_loaded
      on_frame_requested_navigation on_download_will_begin on_console_entry on_exception_thrown
      on_frame_navigated on_target_destroyed
  process_event context answers s (InnerEvent.state_requested reason generation) =
      on_state_requested answers s generation
  process_event context answers s (InnerEvent.paused reason frame) =
      on_paused answers s reason frame
  process_event context answers s (InnerEvent.action_accepted action timeout) =
      on_action_accepted answers s.kind s.shared action timeout
  process_event context answers s InnerEvent.resumed = on_resumed s.kind s.shared
  process_event context answers s (InnerEvent.action_applied generation) =
      on_action_applied s.kind s.shared generation
  process_event context answers s InnerEvent.loaded = on_loaded answers s.shared
  process_event context answers s (InnerEvent.frame_requested_navigation frame_id url) =
      on_frame_requested_navigation context s frame_id url
  process_event context answers s (InnerEvent.download_will_begin frame_id url) =
      on_download_will_begin context answers s.kind s.shared frame_id url
  process_event context answers s (InnerEvent.console_entry entry) =
      on_console_entry s.kind s.shared entry
  process_event context answers s (InnerEvent.exception_thrown exception) =
      on_exception_thrown answers s exception
  process_event context answers s (InnerEvent.frame_navigated frame_id navigation_type) =
      on_frame_navigated context answers s frame_id navigation_type
  process_event context answers s (InnerEvent.target_destroyed target_id) =
      on_target_destroyed context s target_id

  -- The loop of `run_state_machine`, over the events that come before the shutdown signal, each
  -- with what the page answers to it. A failure ends the loop.
  unfoldable pub process_events :
      BrowserContext P → List (Answers P × InnerEvent P) → InnerState P → Step P (InnerState P)
  process_events context [] s = return s
  process_events context ((answers, event) ∷ events) s =
      process_event context answers s event >>= process_events context events
