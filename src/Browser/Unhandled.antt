-- ===== src/Browser/Unhandled.antt =====
-- Which events `process_event` of lib/bombadil/src/browser.rs has no transition for.
use bombadil.Common.{
  Bool, true, false, not, Option, none, some, List, ◌∷◌, ◌++◌, [], ◌≡◌, refl, arith, if◌then◌else◌,
}
use bombadil.Common.Run.{Run, err, expect, ◌>>=◌}
use bombadil.Browser.Protocol.{
  Protocol, InnerStateKind, InnerStateShared, InnerState, InnerEvent, Effect, BrowserContext,
  Answers, Failure, NavigationType,
}
use bombadil.Browser.Capture.{capture_browser_state, current, Step}
use bombadil.Browser.Machine.{
  on_state_requested, on_paused, on_action_accepted, on_resumed, on_action_applied,
  on_download_will_begin, on_console_entry, on_exception_thrown, on_frame_navigated,
  on_main_frame_navigated, process_event,
}

module _ {P : Protocol} where
  -- The run has ended for want of a transition.
  abbrev pub ends_unhandled : Run (List (Effect P)) (Failure P) (InnerState P) → Bool
  ends_unhandled (err Failure.unhandled_transition w) = true
  ends_unhandled _ = false

  abbrev pub awaits_action : InnerStateKind P → Bool
  awaits_action (InnerStateKind.resuming _ _) = false
  awaits_action InnerStateKind.running = false
  awaits_action InnerStateKind.acting = false
  awaits_action _ = true

  abbrev pub awaits_resumption : InnerStateKind P → Bool
  awaits_resumption (InnerStateKind.resuming _ _) = true
  awaits_resumption InnerStateKind.running = true
  awaits_resumption InnerStateKind.pausing = true
  awaits_resumption _ = false

  abbrev pub is_navigating : InnerStateKind P → Bool
  is_navigating (InnerStateKind.navigating _) = true
  is_navigating _ = false

  -- An action where none is awaited, a resumption where none is, and a download where no navigation
  -- goes before it.
  abbrev pub is_unhandled : InnerEvent P → InnerStateKind P → Bool
  is_unhandled (InnerEvent.action_accepted _ _) k = not (awaits_action k)
  is_unhandled InnerEvent.resumed k = not (awaits_resumption k)
  is_unhandled (InnerEvent.download_will_begin _ _) k = not (is_navigating k)
  is_unhandled _ k = false

  if_handled :
      (b : Bool) (m n : Step P (InnerState P)) (w : List (Effect P))
      → ends_unhandled (m w) ≡ false
      → ends_unhandled (n w) ≡ false
      → ends_unhandled ((if b then m else n) w) ≡ false
  if_handled true m n w hm hn = hm
  if_handled false m n w hm hn = hn

  expect_handled :
      {A : Type 0} (o : Option A) (f : A → Step P (InnerState P)) (w : List (Effect P))
      → ((a : A) → ends_unhandled (f a w) ≡ false)
      → (ends_unhandled ((expect o Failure.protocol_error >>= f) w) ≡ false)
        × (ends_unhandled ((expect o Failure.channel_closed >>= f) w) ≡ false)
  expect_handled none f w h = (refl, refl)
  expect_handled (some a) f w h = (h a, h a)

  capture_handled :
      (answers : Answers P) (s : InnerState P) (w : List (Effect P))
      → ends_unhandled (capture_browser_state answers s w) ≡ false
  unfolding capture_browser_state
  capture_handled answers s w = ground arith

module _ {P : Protocol} (context : BrowserContext P) (answers : Answers P)
    (shared : InnerStateShared P) (w : List (Effect P)) where
  abbrev at : InnerStateKind P → InnerState P
  at k = record { kind = k; shared = shared }

  accepted_unhandled :
      (k : InnerStateKind P) (action : P.BrowserAction) (timeout : _)
      → ends_unhandled (on_action_accepted answers k shared action timeout w)
        ≡ is_unhandled (InnerEvent.action_accepted action timeout) k
  unfolding on_action_accepted
  accepted_unhandled InnerStateKind.paused action timeout = ground arith
  accepted_unhandled _ action timeout = refl

  resumed_unhandled :
      (k : InnerStateKind P)
      → ends_unhandled (on_resumed k shared w) ≡ is_unhandled InnerEvent.resumed k
  unfolding on_resumed
  resumed_unhandled InnerStateKind.paused = refl
  resumed_unhandled _ = refl

  applied_handled :
      (k : InnerStateKind P) (g : _) → ends_unhandled (on_action_applied k shared g w) ≡ false
  unfolding on_action_applied
  applied_handled InnerStateKind.acting g = refl
  applied_handled _ g = refl

  download_unhandled :
      (k : InnerStateKind P) (f : P.FrameId) (u : _)
      → ends_unhandled (on_download_will_begin context answers k shared f u w)
        ≡ is_unhandled (InnerEvent.download_will_begin f u) k
  unfolding on_download_will_begin
  download_unhandled (InnerStateKind.navigating url) f u = ground arith
  download_unhandled _ f u = refl

  console_handled :
      (k : InnerStateKind P) (x : P.ConsoleEntry)
      → ends_unhandled (on_console_entry k shared x w) ≡ false
  unfolding on_console_entry
  console_handled (InnerStateKind.navigating _) x = refl
  console_handled _ x = refl

  requested_handled :
      (k : InnerStateKind P) (g : _)
      → ends_unhandled (on_state_requested answers (at k) g w) ≡ false
  unfolding on_state_requested
  requested_handled k g = ground (arith, capture_handled answers (at k) w)

  paused_handled :
      (k : InnerStateKind P) (reason : P.PausedReason) (o : Option P.CallFrameId)
      → ends_unhandled (on_paused answers (at k) reason o w) ≡ false
  unfolding on_paused current
  paused_handled k reason none =
      ground (arith, capture_handled answers (at InnerStateKind.running) (Effect.resume_page ∷ w))
  paused_handled k reason (some frame) = ground arith

  exception_handled :
      (k : InnerStateKind P) (x : P.Exception)
      → ends_unhandled (on_exception_thrown answers (at k) x w) ≡ false
  unfolding on_exception_thrown
  exception_handled k x = ground (
    arith,
    capture_handled answers
        (record { kind = k; shared = record shared { exceptions = shared.exceptions ++ x ∷ [] } })
        w,
  )

  main_frame_handled :
      (t : NavigationType) (w : List (Effect P))
      → ends_unhandled (on_main_frame_navigated answers shared t w) ≡ false
  unfolding on_main_frame_navigated
  main_frame_handled NavigationType.navigation w = refl
  main_frame_handled NavigationType.back_forward_cache_restore w =
      (expect_handled answers.send_inner_event _ w (λ _. refl)).1

  navigated_handled :
      (k : InnerStateKind P) (f : P.FrameId) (t : NavigationType)
      → ends_unhandled (on_frame_navigated context answers (at k) f t w) ≡ false
  unfolding on_frame_navigated
  navigated_handled k f t =
      (expect_handled answers.document _ w λ _.
        if_handled (P.same_frame f context.frame_id) _ _ _
          (main_frame_handled t (Effect.get_document ∷ w)) refl).0

  -- Whatever the page answers, handling an event ends for want of a transition exactly at the kinds
  -- and events of the table `is_unhandled`.
  pub process_event_unhandled :
      (k : InnerStateKind P) (e : InnerEvent P)
      → ends_unhandled (process_event context answers (at k) e w) ≡ is_unhandled e k
  unfolding process_event
  process_event_unhandled k (InnerEvent.state_requested reason g) = requested_handled k g
  process_event_unhandled k (InnerEvent.paused reason o) = paused_handled k reason o
  process_event_unhandled k (InnerEvent.action_accepted a t) = accepted_unhandled k a t
  process_event_unhandled k InnerEvent.resumed = resumed_unhandled k
  process_event_unhandled k (InnerEvent.action_applied g) = applied_handled k g
  process_event_unhandled k InnerEvent.loaded = ground arith
  process_event_unhandled k (InnerEvent.frame_requested_navigation f u) =
      if_handled (P.same_frame f context.frame_id) _ _ w refl refl
  process_event_unhandled k (InnerEvent.download_will_begin f u) = download_unhandled k f u
  process_event_unhandled k (InnerEvent.console_entry x) = console_handled k x
  process_event_unhandled k (InnerEvent.exception_thrown x) = exception_handled k x
  process_event_unhandled k (InnerEvent.frame_navigated f t) = navigated_handled k f t
  process_event_unhandled k (InnerEvent.target_destroyed t) =
      if_handled (P.same_target t context.target_id) _ _ w refl refl
