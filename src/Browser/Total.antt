-- ===== src/Browser/Total.antt =====
-- When `process_event` of lib/bombadil/src/browser.rs succeeds.
use text.Mathlib.Text.{◌==◌ as str_eq}
use bombadil.Common.{
  Bool, true, false, not, ◌&&◌, Option, none, some, List, ◌≡◌, ◌≢◌, refl, ◌==◌, if◌then◌else◌,
}
use bombadil.Common.Run.{Ends, Ends-if}
use bombadil.Browser.Protocol.{
  Protocol, InnerStateKind, InnerStateShared, InnerState, InnerEvent, Effect, BrowserContext,
  Answers, NavigationType, ScreenshotResult,
}
use bombadil.Browser.Capture.{Step, capture_browser_state, with_context, current}
use bombadil.Browser.Machine.{
  on_state_requested, on_paused, on_paused_in_frame, on_action_accepted, on_resumed,
  on_action_applied, on_loaded, on_frame_requested_navigation, on_download_will_begin,
  on_console_entry, on_exception_thrown, on_main_frame_navigated, on_frame_navigated,
  on_target_destroyed, process_event, is_busy, is_running,
}
use bombadil.Browser.Unhandled.{is_unhandled}

module _ {P : Protocol} where
  -- No request to the page or to a channel fails; a screenshot may.
  pub record Willing (answers : Answers P) : Type 0 where
    pub context : Option P.ContextId
    pub has_context : answers.execution_context ≡ some context
    pub reading : P.CallFrameId → P.Reading
    pub reads : (frame : P.CallFrameId) → answers.current frame ≡ some (reading frame)
    pub resumes : answers.resume ≡ some tt
    pub sends_state : answers.send_state_changed ≡ some tt
    pub sends_event : answers.send_inner_event ≡ some tt
    pub gives_document : answers.document ≡ some tt

  -- What the machine takes for granted of an event, besides a transition for it.
  abbrev pub Expected : BrowserContext P → InnerState P → InnerEvent P → Type 0
  Expected context s (InnerEvent.paused reason (some frame)) =
      (P.is_other reason ≡ true) × (s.shared.screenshot ≢ none)
  Expected context s (InnerEvent.target_destroyed target) =
      P.same_target target context.target_id ≡ false
  Expected context s _ = Unit

  -- The handler returns.
  abbrev pub Succeeds : Step P (InnerState P) → List (Effect P) → Type 0
  Succeeds m w = Ends (λ _ _. Unit) (λ _. ⊥) (m w)

  Succeeds-if :
      (b : Bool) (m n : Step P (InnerState P)) (w : List (Effect P))
      → (b ≡ true → Succeeds m w)
      → (b ≡ false → Succeeds n w)
      → Succeeds (if b then m else n) w
  Succeeds-if b m n w = Ends-if (λ _ _. Unit) (λ _. ⊥) b m n w

module _ {P : Protocol} (context : BrowserContext P) (answers : Answers P)
    (willing : Willing answers) where
  capture-Succeeds :
      (s : InnerState P) (w : List (Effect P)) → Succeeds (capture_browser_state answers s) w
  unfolding capture_browser_state
  capture-Succeeds s w = rw (willing.has_context) (found willing.context answers.screenshot)
    where
      found : (o : Option P.ContextId) (r : ScreenshotResult P) → Succeeds (with_context s r o) w
      found none r = tt
      found (some id) (ScreenshotResult.taken _) = tt
      found (some id) ScreenshotResult.failed = tt
      found (some id) ScreenshotResult.timed_out = tt

  paused-Succeeds :
      (shared : InnerStateShared P) (frame : P.CallFrameId) (o : Option P.Screenshot)
      (w : List (Effect P))
      → shared.screenshot ≡ o
      → o ≢ none
      → Succeeds (on_paused_in_frame answers shared frame) w
  unfolding on_paused_in_frame current
  paused-Succeeds shared frame none w e h = absurd (h refl)
  paused-Succeeds shared frame (some screenshot) w e h =
      rw e (rw (willing.reads frame) (rw (willing.sends_state) tt))

  download-Succeeds :
      (shared : InnerStateShared P) (k : InnerStateKind P) (f : P.FrameId) (u : _)
      (w : List (Effect P))
      → is_unhandled {P = P} (InnerEvent.download_will_begin f u) k ≡ false
      → Succeeds (on_download_will_begin context answers k shared f u) w
  unfolding on_download_will_begin
  download-Succeeds shared (InnerStateKind.navigating url) f u w h =
      Succeeds-if (P.same_frame f context.frame_id && str_eq url u) _ _ w
        (λ _. rw (willing.sends_event) tt) (λ _. tt)
  download-Succeeds shared InnerStateKind.pausing f u w h = cc
  download-Succeeds shared _ f u w h = cc

  -- Where no request fails, the event has a transition in the table, a page that pauses has done so
  -- for the machine's own reason with a screenshot at hand, and the page is not destroyed, handling
  -- the event returns a state.
  pub process_event-Succeeds :
      (k : InnerStateKind P) (shared : InnerStateShared P) (e : InnerEvent P) (w : List (Effect P))
      → is_unhandled e k ≡ false
      → Expected context (record { kind = k; shared = shared }) e
      → Succeeds (process_event context answers (record { kind = k; shared = shared }) e) w
  unfolding process_event on_state_requested on_paused on_action_accepted on_resumed
      on_action_applied on_loaded on_frame_requested_navigation on_console_entry on_exception_thrown
      on_frame_navigated on_main_frame_navigated on_target_destroyed capture_browser_state
  process_event-Succeeds k shared (InnerEvent.state_requested reason g) w h x =
      Succeeds-if (not (shared.generation == g)) _ _ w (λ _. tt)
        (λ _. Succeeds-if (is_busy k) _ _ w (λ _. tt) (λ _. capture-Succeeds _ w))
  process_event-Succeeds k shared (InnerEvent.paused reason none) w h x =
      rw (willing.resumes) (capture-Succeeds _ _)
  process_event-Succeeds k shared (InnerEvent.paused reason (some frame)) w h x =
      rw (x.0) (paused-Succeeds shared frame shared.screenshot w refl (x.1))
  process_event-Succeeds InnerStateKind.paused shared (InnerEvent.action_accepted a t) w h x =
      rw (willing.resumes) tt
  process_event-Succeeds InnerStateKind.pausing shared (InnerEvent.action_accepted a t) w h x = tt
  process_event-Succeeds (InnerStateKind.navigating _) shared (InnerEvent.action_accepted a t) w h
        x =
      tt
  process_event-Succeeds InnerStateKind.loading shared (InnerEvent.action_accepted a t) w h x = tt
  process_event-Succeeds _ shared (InnerEvent.action_accepted a t) w h x = cc
  process_event-Succeeds InnerStateKind.pausing shared InnerEvent.resumed w h x = tt
  process_event-Succeeds InnerStateKind.running shared InnerEvent.resumed w h x = tt
  process_event-Succeeds (InnerStateKind.resuming _ _) shared InnerEvent.resumed w h x = tt
  process_event-Succeeds _ shared InnerEvent.resumed w h x = cc
  process_event-Succeeds InnerStateKind.acting shared (InnerEvent.action_applied g) w h x = tt
  process_event-Succeeds _ shared (InnerEvent.action_applied g) w h x = tt
  process_event-Succeeds k shared InnerEvent.loaded w h x = rw (willing.sends_event) tt
  process_event-Succeeds k shared (InnerEvent.frame_requested_navigation f u) w h x =
      Succeeds-if (P.same_frame f context.frame_id) _ _ w (λ _. tt) (λ _. tt)
  process_event-Succeeds k shared (InnerEvent.download_will_begin f u) w h x =
      download-Succeeds shared k f u w h
  process_event-Succeeds (InnerStateKind.navigating _) shared (InnerEvent.console_entry _) w h x =
      tt
  process_event-Succeeds _ shared (InnerEvent.console_entry _) w h x = tt
  process_event-Succeeds k shared (InnerEvent.exception_thrown _) w h x =
      Succeeds-if (is_running k) _ _ w (λ _. capture-Succeeds _ w) (λ _. tt)
  process_event-Succeeds k shared (InnerEvent.frame_navigated f NavigationType.navigation) w h x =
      rw (willing.gives_document)
        (Succeeds-if (P.same_frame f context.frame_id) _ _ _ (λ _. tt) (λ _. tt))
  process_event-Succeeds k shared
        (InnerEvent.frame_navigated f NavigationType.back_forward_cache_restore) w h x =
      rw (willing.gives_document) (
        Succeeds-if (P.same_frame f context.frame_id) _ _ _ (λ _. rw (willing.sends_event) tt)
          (λ _. tt))
  process_event-Succeeds k shared (InnerEvent.target_destroyed t) w h x = rw x tt
