-- ===== src/Browser/Capture.antt =====
-- lib/bombadil/src/browser.rs: `capture_browser_state`, and `BrowserState::current` of
-- lib/bombadil/src/browser/state.rs.
use bombadil.Common.{Option, none, some, List}
use bombadil.Common.Run.{Comp, return, emit, expect, ◌>>=◌, ◌>>◌}
use bombadil.Browser.Protocol.{
  Protocol, next, InnerStateKind, InnerState, BrowserState, Effect, ScreenshotResult, Answers,
  Failure,
}

-- A handler: what it sends is kept where it fails later.
abbrev pub Step : Protocol → Type 0 → Type 0
Step P A = Comp (List (Effect P)) (Failure P) A

module _ {P : Protocol} where
  -- `capture_browser_state` from the screenshot's result on.
  unfoldable pub with_screenshot :
      InnerState P → P.ContextId → ScreenshotResult P → Step P (InnerState P)
  with_screenshot s id ScreenshotResult.failed = return s
  with_screenshot s id ScreenshotResult.timed_out = return s
  with_screenshot s id (ScreenshotResult.taken screenshot) = do
    emit (Effect.evaluate_debugger id)
    return (record {
      kind = InnerStateKind.pausing;
      shared = record s.shared {
        generation = next s.shared.generation;
        screenshot = some screenshot;
      };
    })

  unfoldable pub with_context :
      InnerState P → ScreenshotResult P → Option P.ContextId → Step P (InnerState P)
  unfolding with_screenshot
  with_context s result none = return s
  with_context s result (some id) = with_screenshot s id result

  unfoldable pub capture_browser_state : Answers P → InnerState P → Step P (InnerState P)
  unfolding with_context
  capture_browser_state answers s = do
    id ← expect answers.execution_context Failure.protocol_error
    with_context s answers.screenshot id

  -- `BrowserState::current`: the reading, beside what the machine has collected.
  unfoldable pub current :
      Answers P
      → P.CallFrameId
      → List P.ConsoleEntry
      → List P.Exception
      → P.Screenshot
      → Step P (BrowserState P)
  current answers frame console_entries exceptions screenshot = do
    reading ← expect (answers.current frame) Failure.protocol_error
    return (record {
      reading = reading;
      console_entries = console_entries;
      exceptions = exceptions;
      screenshot = screenshot;
    })
