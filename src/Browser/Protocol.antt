-- ===== src/Browser/Protocol.antt =====
-- lib/bombadil/src/browser.rs: the state, the events and the effects of the browser's state machine.
-- What comes from the debugging protocol's library and is only passed on is a type of `Protocol`,
-- with the comparisons that the machine makes.
use bombadil.Common.{ℕ, ◌+◌, ◌%◌, ◌^◌, Bool, Option, none, List, [], String}

pub record Protocol : Type 1 where
  pub BrowserAction : Type 0
  pub ConsoleEntry : Type 0
  pub Exception : Type 0
  pub Screenshot : Type 0
  pub CallFrameId : Type 0
  pub PausedReason : Type 0
  pub ContextId : Type 0
  pub FrameId : Type 0
  pub TargetId : Type 0
  -- What `BrowserState::current` reads from the page.
  pub Reading : Type 0
  pub is_other : PausedReason → Bool
  pub same_frame : FrameId → FrameId → Bool
  pub same_target : TargetId → TargetId → Bool

-- A `u64`.
abbrev pub Generation : Type 0
Generation = ℕ

abbrev pub next : Generation → Generation
next generation = (generation + 1) % 2 ^ 64

-- In milliseconds.
abbrev pub Timeout : Type 0
Timeout = ℕ

pub data StateRequestReason : Type 0 where
  start timeout loaded back_forward_cache_restore file_download watchdog : StateRequestReason

pub data NavigationType : Type 0 where
  navigation back_forward_cache_restore : NavigationType

module _ (P : Protocol) where
  pub data InnerStateKind : Type 0 where
    pausing paused : InnerStateKind
    resuming : P.BrowserAction → Timeout → InnerStateKind
    navigating : String → InnerStateKind
    loading running acting : InnerStateKind

  pub record InnerStateShared : Type 0 where
    pub generation : Generation
    pub console_entries : List P.ConsoleEntry
    pub exceptions : List P.Exception
    pub screenshot : Option P.Screenshot

  pub record InnerState : Type 0 where
    pub kind : InnerStateKind
    pub shared : InnerStateShared

  pub data InnerEvent : Type 0 where
    state_requested : StateRequestReason → Generation → InnerEvent
    loaded : InnerEvent
    -- The reason and the first call frame; the exception is only logged.
    paused : P.PausedReason → Option P.CallFrameId → InnerEvent
    resumed : InnerEvent
    -- The reason is only logged.
    frame_requested_navigation : P.FrameId → String → InnerEvent
    frame_navigated : P.FrameId → NavigationType → InnerEvent
    download_will_begin : P.FrameId → String → InnerEvent
    target_destroyed : P.TargetId → InnerEvent
    console_entry : P.ConsoleEntry → InnerEvent
    action_accepted : P.BrowserAction → Timeout → InnerEvent
    action_applied : Generation → InnerEvent
    exception_thrown : P.Exception → InnerEvent

  pub record BrowserState : Type 0 where
    pub reading : P.Reading
    pub console_entries : List P.ConsoleEntry
    pub exceptions : List P.Exception
    pub screenshot : P.Screenshot

  -- What the machine does to the page and to its channels, in order.
  pub data Effect : Type 0 where
    resume_page get_document : Effect
    -- The spawned evaluation of `debugger;0`.
    evaluate_debugger : P.ContextId → Effect
    state_changed : BrowserState → Effect
    -- An event that is sent at once.
    request : StateRequestReason → Generation → Effect
    -- After thirty seconds a request with the reason `watchdog`.
    start_watchdog : Generation → Effect
    -- The spawned action, which ends by an `action_applied` event, and the spawned timer, which
    -- aborts it and requests a state.
    apply_action : P.BrowserAction → Timeout → Generation → Effect

  pub record BrowserContext : Type 0 where
    pub frame_id : P.FrameId
    pub target_id : P.TargetId

  pub data ScreenshotResult : Type 0 where
    taken : P.Screenshot → ScreenshotResult
    failed timed_out : ScreenshotResult

  -- What the page and the channels answer while one event is handled; `none` is a failure.
  pub record Answers : Type 0 where
    pub resume : Option (Unit {0})
    pub execution_context : Option (Option P.ContextId)
    pub screenshot : ScreenshotResult
    pub current : P.CallFrameId → Option P.Reading
    pub send_state_changed : Option (Unit {0})
    pub send_inner_event : Option (Unit {0})
    pub document : Option (Unit {0})

  pub data Failure : Type 0 where
    protocol_error channel_closed : Failure
    unexpected_pause_reason no_screenshot target_lost unhandled_transition : Failure

abbrev pub default : {P : Protocol} → InnerState P
default = record {
  kind = InnerStateKind.running;
  shared = record { generation = 0; console_entries = []; exceptions = []; screenshot = none };
}
