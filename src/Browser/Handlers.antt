-- ===== src/Browser/Handlers.antt =====
-- What each handler of `process_event` of lib/bombadil/src/browser.rs keeps.
use mathlib.Core.List.{append-nil, append_assoc}
use text.Mathlib.Text.{◌==◌ as str_eq}
use bombadil.Common.{
  not, ◌&&◌, Option, none, some, List, [], ◌∷◌, ◌++◌, String, ◌≡◌, refl, sym, inl, inr, ◌==◌,
  Bool-cases,
}
use bombadil.Common.Run.{Ensures, Ensures-expect, Ensures-if, Ensures-map, Ensures-bind, return}
use bombadil.Browser.Protocol.{
  Protocol, Generation, Timeout, StateRequestReason, NavigationType, InnerStateKind,
  InnerStateShared, InnerState, Effect, BrowserContext, Answers,
}
use bombadil.Browser.Capture.{current}
use bombadil.Browser.Machine.{
  on_state_requested, on_paused_in_frame, on_paused, on_action_accepted, on_resumed,
  on_action_applied, on_loaded, on_download_will_begin, on_console_entry, on_exception_thrown,
  on_main_frame_navigated, on_frame_navigated, is_busy, is_running, try_request,
}
use bombadil.Browser.Moves.{reported, Moves, quietly, stays, Captures, capture-Captures}

module _ {P : Protocol} (context : BrowserContext P) (answers : Answers P) where
  Captures-Moves :
      (s s' : InnerState P) (w w' : List (Effect P)) → Captures s w s' w' → Moves s w [] s' w'
  Captures-Moves s s' w w' c = record {
    screenshot = c.screenshot;
    accounted = rw (c.exceptions, c.reports) (sym (append-nil _));
    generation = c.generation;
  }

  pub requested :
      (s : InnerState P) (generation : Generation) (w : List (Effect P))
      → Ensures (Moves s w []) (on_state_requested answers s generation w)
  unfolding on_state_requested
  requested s generation w =
      Ensures-if (Moves s w []) (not (s.shared.generation == generation)) _ _ w (λ _. stays s w)
        λ _.
          Ensures-if (Moves s w []) (is_busy s.kind) _ _ w (λ _. stays s w)
            λ _.
              Ensures-map (Captures s w) (Moves s w []) _ (λ s' w'. Captures-Moves s s' w w')
                (capture-Captures answers s w)

  -- The reading is reported with the exceptions at hand, and nothing is sent.
  current-exceptions :
      (frame : P.CallFrameId) (entries : List P.ConsoleEntry) (xs : List P.Exception)
      (screenshot : P.Screenshot) (w : List (Effect P))
      → Ensures
          (λ state w'. (state.exceptions ≡ xs) × (w' ≡ w))
          (current answers frame entries xs screenshot w)
  unfolding current
  current-exceptions frame entries xs screenshot w =
      Ensures-expect (λ state w'. (state.exceptions ≡ xs) × (w' ≡ w)) (answers.current frame) _ _ w
        λ r _. (refl, refl)

  paused_in_frame :
      (s : InnerState P) (frame : P.CallFrameId) (w : List (Effect P))
      → Ensures (Moves s w []) (on_paused_in_frame answers s.shared frame w)
  unfolding on_paused_in_frame reported
  paused_in_frame s frame w =
      Ensures-expect (Moves s w []) s.shared.screenshot _ _ w λ screenshot _.
        Ensures-bind _ (Moves s w []) (current answers frame _ s.shared.exceptions screenshot) _ w
          (current-exceptions frame _ s.shared.exceptions screenshot w)
          λ state w' h. Ensures-expect (Moves s w []) answers.send_state_changed _ _ w' λ _ _.
            record { screenshot = λ _ e. cc; accounted = rw (h.0, h.1) refl; generation = inr refl }

  pub on_paused-Moves :
      (s : InnerState P) (reason : P.PausedReason) (o : Option P.CallFrameId) (w : List (Effect P))
      → Ensures (Moves s w []) (on_paused answers s reason o w)
  unfolding on_paused reported
  on_paused-Moves s reason none w =
      let s' : InnerState P = record { kind = InnerStateKind.running; shared = s.shared } in
      Ensures-expect (Moves s w []) answers.resume _ _ w λ _ _.
        Ensures-map (Captures s' (Effect.resume_page ∷ w)) (Moves s w []) _
          (λ t w' c. record {
            screenshot = λ _. c.screenshot (λ e. cc);
            accounted = rw (c.exceptions, c.reports) (sym (append-nil _));
            generation = c.generation;
          })
          (capture-Captures answers s' (Effect.resume_page ∷ w))
  on_paused-Moves s reason (some frame) w =
      Ensures-if (Moves s w []) (P.is_other reason) _ _ w (λ _. paused_in_frame s frame w) (λ _. tt)

  module _ (shared : InnerStateShared P) where
    abbrev at : InnerStateKind P → InnerState P
    at k = record { kind = k; shared = shared }

    pub accepted :
        (k : InnerStateKind P) (action : P.BrowserAction) (timeout : Timeout) (w : List (Effect P))
        → Ensures (Moves (at k) w []) (on_action_accepted answers k shared action timeout w)
    unfolding on_action_accepted reported
    accepted InnerStateKind.paused action timeout w =
        Ensures-expect (Moves (at InnerStateKind.paused) w []) answers.resume _ _ w
          λ _ _. quietly _ _ _ _ (λ e. cc) refl refl refl refl
    accepted InnerStateKind.loading action timeout w = stays _ w
    accepted (InnerStateKind.navigating _) action timeout w = stays _ w
    accepted InnerStateKind.pausing action timeout w = stays _ w
    accepted (InnerStateKind.resuming _ _) action timeout w = tt
    accepted InnerStateKind.running action timeout w = tt
    accepted InnerStateKind.acting action timeout w = tt

    pub on_resumed-Moves :
        (k : InnerStateKind P) (w : List (Effect P))
        → Ensures (Moves (at k) w []) (on_resumed k shared w)
    unfolding on_resumed reported
    on_resumed-Moves InnerStateKind.pausing w = stays _ w
    on_resumed-Moves InnerStateKind.running w = quietly _ _ _ _ (λ e. e) refl refl refl refl
    on_resumed-Moves (InnerStateKind.resuming _ _) w = quietly _ _ _ _ (λ e. cc) refl refl refl refl
    on_resumed-Moves InnerStateKind.paused w = tt
    on_resumed-Moves InnerStateKind.loading w = tt
    on_resumed-Moves (InnerStateKind.navigating _) w = tt
    on_resumed-Moves InnerStateKind.acting w = tt

    pub applied :
        (k : InnerStateKind P) (g : Generation) (w : List (Effect P))
        → Ensures (Moves (at k) w []) (on_action_applied k shared g w)
    unfolding on_action_applied
    applied InnerStateKind.acting g w =
        quietly _ _ _ _
          (elim (Bool-cases (shared.generation == g)) [
            | inl e ↦ rw e (λ p. cc)
            | inr e ↦ rw e (λ p. p)
          ])
          refl refl refl refl
    applied InnerStateKind.pausing g w = stays _ w
    applied InnerStateKind.running g w = stays _ w
    applied (InnerStateKind.resuming _ _) g w = stays _ w
    applied InnerStateKind.paused g w = stays _ w
    applied InnerStateKind.loading g w = stays _ w
    applied (InnerStateKind.navigating _) g w = stays _ w

    pub on_loaded-Moves :
        (k : InnerStateKind P) (w : List (Effect P))
        → Ensures (Moves (at k) w []) (on_loaded answers shared w)
    unfolding on_loaded reported
    on_loaded-Moves k w =
        Ensures-expect (Moves (at k) w []) answers.send_inner_event _ _ w
          λ _ _. quietly _ _ _ _ (λ e. cc) refl refl refl refl

    requested_download :
        (url : String) (o : Option (Unit {0})) (w : List (Effect P))
        → Ensures
            (λ _ w'. reported w' ≡ reported w)
            (try_request {P = P} o StateRequestReason.file_download shared.generation w)
    unfolding reported
    requested_download url none w = refl
    requested_download url (some _) w = refl

    pub download :
        (k : InnerStateKind P) (f : P.FrameId) (u : String) (w : List (Effect P))
        → Ensures (Moves (at k) w []) (on_download_will_begin context answers k shared f u w)
    unfolding on_download_will_begin
    download (InnerStateKind.navigating url) f u w =
        Ensures-if (Moves (at (InnerStateKind.navigating url)) w [])
          (P.same_frame f context.frame_id && str_eq url u) _ _ w
          (λ _.
            Ensures-bind _ (Moves (at (InnerStateKind.navigating url)) w [])
              (try_request {P = P} answers.send_inner_event StateRequestReason.file_download
                shared.generation)
              (λ _. return (at InnerStateKind.running)) w
              (requested_download url answers.send_inner_event w)
              (λ _ w' h.
                quietly (at (InnerStateKind.navigating url)) (at InnerStateKind.running) w w'
                  (λ e. cc) refl refl refl h))
          (λ _. stays _ w)
    download InnerStateKind.pausing f u w = tt
    download InnerStateKind.running f u w = tt
    download (InnerStateKind.resuming _ _) f u w = tt
    download InnerStateKind.paused f u w = tt
    download InnerStateKind.loading f u w = tt
    download InnerStateKind.acting f u w = tt

    pub console :
        (k : InnerStateKind P) (x : P.ConsoleEntry) (w : List (Effect P))
        → Ensures (Moves (at k) w []) (on_console_entry k shared x w)
    unfolding on_console_entry
    console (InnerStateKind.navigating _) x w = quietly _ _ _ _ (λ e. e) refl refl refl refl
    console InnerStateKind.pausing x w = quietly _ _ _ _ (λ e. e) refl refl refl refl
    console InnerStateKind.running x w = quietly _ _ _ _ (λ e. e) refl refl refl refl
    console (InnerStateKind.resuming _ _) x w = quietly _ _ _ _ (λ e. e) refl refl refl refl
    console InnerStateKind.paused x w = quietly _ _ _ _ (λ e. e) refl refl refl refl
    console InnerStateKind.loading x w = quietly _ _ _ _ (λ e. e) refl refl refl refl
    console InnerStateKind.acting x w = quietly _ _ _ _ (λ e. e) refl refl refl refl

  -- The exception is kept, and reported with the next state.
  pub exception :
      (s : InnerState P) (x : P.Exception) (w : List (Effect P))
      → Ensures (Moves s w (x ∷ [])) (on_exception_thrown answers s x w)
  unfolding on_exception_thrown
  exception s x w =
      let s' : InnerState P = record {
        kind = s.kind;
        shared = record s.shared { exceptions = s.shared.exceptions ++ x ∷ [] };
      } in
      Ensures-if (Moves s w (x ∷ [])) (is_running s.kind) _ _ w
        (λ _.
          Ensures-map (Captures s' w) (Moves s w (x ∷ [])) _
            (λ t w' c. record {
              screenshot = c.screenshot;
              accounted =
                  rw (c.exceptions, c.reports)
                    (sym (append_assoc (reported w) s.shared.exceptions (x ∷ [])));
              generation = c.generation;
            })
            (capture-Captures answers s' w))
        (λ _. record {
          screenshot = λ h. h;
          accounted = sym (append_assoc (reported w) s.shared.exceptions (x ∷ []));
          generation = inl refl;
        })

  main_frame :
      (s : InnerState P) (t : NavigationType) (w : List (Effect P))
      → Ensures (Moves s w []) (on_main_frame_navigated answers s.shared t w)
  unfolding on_main_frame_navigated reported
  main_frame s NavigationType.navigation w = quietly _ _ _ _ (λ e. cc) refl refl refl refl
  main_frame s NavigationType.back_forward_cache_restore w =
      Ensures-expect (Moves s w []) answers.send_inner_event _ _ w
        λ _ _. quietly _ _ _ _ (λ e. cc) refl refl refl refl

  pub navigated :
      (s : InnerState P) (f : P.FrameId) (t : NavigationType) (w : List (Effect P))
      → Ensures (Moves s w []) (on_frame_navigated context answers s f t w)
  unfolding on_frame_navigated reported
  navigated s f t w =
      let w' = Effect.get_document ∷ w in
      Ensures-expect (Moves s w []) answers.document _ _ w λ _ _.
        Ensures-if (Moves s w []) (P.same_frame f context.frame_id) _ _ w'
          (λ _.
            Ensures-map (Moves s w' []) (Moves s w []) _
              (λ t v m. record {
                screenshot = m.screenshot;
                accounted = m.accounted;
                generation = m.generation;
              })
              (main_frame s t w'))
          (λ _. quietly _ _ _ _ (λ e. e) refl refl refl refl)
