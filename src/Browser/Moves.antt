-- ===== src/Browser/Moves.antt =====
-- What one event does to the state that lib/bombadil/src/browser.rs keeps beside its kind, handler by
-- handler: nothing is reported twice or lost, and a screenshot is there when it is needed.
use mathlib.Core.List.{append-nil}
use bombadil.Common.{Option, none, some, List, [], ◌∷◌, ◌++◌, ◌≡◌, ◌≢◌, refl, sym, ◌⊎◌, inl, inr}
use bombadil.Common.Run.{Ensures, Ensures-expect}
use bombadil.Browser.Protocol.{
  Protocol, next, InnerStateKind, InnerState, InnerEvent, Effect, ScreenshotResult, Answers,
}
use bombadil.Browser.Capture.{with_screenshot, with_context, capture_browser_state}

module _ {P : Protocol} where
  -- The exceptions of every state that was reported, in the order of the reports.
  unfoldable pub reported : List (Effect P) → List P.Exception
  reported [] = []
  reported (Effect.state_changed state ∷ sent) = reported sent ++ state.exceptions
  reported (_ ∷ sent) = reported sent

  abbrev pub thrown : InnerEvent P → List P.Exception
  thrown (InnerEvent.exception_thrown x) = x ∷ []
  thrown _ = []

  -- While the page is about to pause there is a screenshot of it.
  abbrev pub HasScreenshot : InnerState P → Type 0
  HasScreenshot s = s.kind ≡ InnerStateKind.pausing → s.shared.screenshot ≢ none

  -- From `s`, with `w` sent, to `s'`, with `w'` sent, where the exceptions `xs` come in.
  pub record Moves (s : InnerState P) (w : List (Effect P)) (xs : List P.Exception)
      (s' : InnerState P) (w' : List (Effect P)) : Type 0 where
    pub screenshot : HasScreenshot s → HasScreenshot s'
    pub accounted : reported w' ++ s'.shared.exceptions ≡ (reported w ++ s.shared.exceptions) ++ xs
    pub generation :
        (s'.shared.generation ≡ s.shared.generation)
        ⊎ (s'.shared.generation ≡ next s.shared.generation)

  -- A state that keeps what matters, after sending nothing that reports.
  pub quietly :
      (s s' : InnerState P) (w w' : List (Effect P))
      → (s'.kind ≡ InnerStateKind.pausing → s.kind ≡ InnerStateKind.pausing)
      → s'.shared.exceptions ≡ s.shared.exceptions
      → s'.shared.generation ≡ s.shared.generation
      → s'.shared.screenshot ≡ s.shared.screenshot
      → reported w' ≡ reported w
      → Moves s w [] s' w'
  quietly s s' w w' k x g p r = record {
    screenshot = λ h e. rw p (h (k e));
    accounted = rw (x, r) (sym (append-nil _));
    generation = inl g;
  }

  pub stays : (s : InnerState P) (w : List (Effect P)) → Moves s w [] s w
  stays s w = quietly s s w w (λ e. e) refl refl refl refl

  -- What a capture does, from a state that may have taken in exceptions.
  pub record Captures (s : InnerState P) (w : List (Effect P)) (s' : InnerState P)
      (w' : List (Effect P)) : Type 0 where
    pub screenshot : HasScreenshot s → HasScreenshot s'
    pub exceptions : s'.shared.exceptions ≡ s.shared.exceptions
    pub reports : reported w' ≡ reported w
    pub generation :
        (s'.shared.generation ≡ s.shared.generation)
        ⊎ (s'.shared.generation ≡ next s.shared.generation)

  no_capture : (s : InnerState P) (w : List (Effect P)) → Captures s w s w
  no_capture s w = record {
    screenshot = λ h. h;
    exceptions = refl;
    reports = refl;
    generation = inl refl;
  }

  with_screenshot-Captures :
      (s : InnerState P) (id : P.ContextId) (r : ScreenshotResult P) (w : List (Effect P))
      → Ensures (Captures s w) (with_screenshot s id r w)
  unfolding with_screenshot reported
  with_screenshot-Captures s id ScreenshotResult.failed w = no_capture s w
  with_screenshot-Captures s id ScreenshotResult.timed_out w = no_capture s w
  with_screenshot-Captures s id (ScreenshotResult.taken screenshot) w = record {
    screenshot = λ h e p. cc;
    exceptions = refl;
    reports = refl;
    generation = inr refl;
  }

  pub capture-Captures :
      (answers : Answers P) (s : InnerState P) (w : List (Effect P))
      → Ensures (Captures s w) (capture_browser_state answers s w)
  unfolding capture_browser_state
  capture-Captures answers s w =
      Ensures-expect (Captures s w) answers.execution_context _ _ w λ o _. found o
    where
      found :
          (o : Option P.ContextId) → Ensures (Captures s w) (with_context s answers.screenshot o w)
      found none = no_capture s w
      found (some id) = with_screenshot-Captures s id answers.screenshot w
