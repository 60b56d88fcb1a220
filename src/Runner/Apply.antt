-- ===== src/Runner/Apply.antt =====
-- `BrowserAction::apply` of lib/bombadil/src/browser/actions.rs, over what the page answers. The
-- host is the list of what was sent to the page, the latest first; a pause is one of them.
use bombadil.Common.{
  ℕ, zero, suc, String, Bool, true, false, Option, none, some, List, [], ◌∷◌, get_elem?, length,
  leb, ◌==◌, ◌||◌, if◌then◌else◌, ◌+◌,
}
use bombadil.Common.Text.{Text, codes}
use bombadil.Common.Run.{Run, Comp, ok, err, return, fail, expect, ◌>>=◌, ◌>>◌}
use bombadil.Keys.{key_name}
use bombadil.Runner.Action.{Float, BrowserAction}

pub data KeyEvent : Type 0 where
  raw_key_down char key_up : KeyEvent

-- `scroll_by origin distance speed`, `key event code name` and `set_files files node`.
pub data Command (Point : Type 0) : Type 0 where
  get_navigation_history reload get_document : Command Point
  navigate_to_history_entry sleep insert_text : ℕ → Command Point
  click : Point → Command Point
  scroll_by : Point → Float → ℕ → Command Point
  key : KeyEvent → ℕ → String → Command Point
  query_selector : ℕ → String → Command Point
  set_files : List String → ℕ → Command Point

pub data Failure : Type 0 where
  page_failed at_first_entry at_last_entry unknown_key no_element out_of_range : Failure

-- What the page answers: whether a command succeeds after others, the index and the entries of its
-- history, the root of its document and the node for a selector; and what is computed with floats.
pub record Page (Point : Type 0) : Type 0 where
  pub accepts : List (Command Point) → Command Point → Bool
  pub current_index : ℕ
  pub entries : List ℕ
  pub root : ℕ
  pub node_of : String → ℕ
  pub negate : Float → Float
  pub speed_of : Float → ℕ

module _ {Point : Type 0} (page : Page Point) where
  abbrev pub Sent : Type 0
  Sent = List (Command Point)

  abbrev pub Apply : Type 0
  Apply = Comp Sent Failure (Unit {0})

  abbrev pub answered : Bool → Sent → Run Sent Failure (Unit {0})
  answered true sent = ok tt sent
  answered false sent = err Failure.page_failed sent

  abbrev pub is_pause : Command Point → Bool
  is_pause (Command.sleep millis) = true
  is_pause _ = false

  -- A pause does not fail.
  unfoldable pub send : Command Point → Apply
  send c sent = answered (is_pause c || page.accepts sent c) (c ∷ sent)

  unfoldable pub apply_back : ℕ → List ℕ → Apply
  unfolding send
  apply_back zero entries = fail Failure.at_first_entry
  apply_back (suc previous) entries = do
    last ← expect (get_elem? entries previous) Failure.out_of_range
    send (Command.navigate_to_history_entry last)

  unfoldable pub apply_forward : ℕ → List ℕ → Apply
  unfolding send
  apply_forward current entries =
      if leb (length entries) (current + 1) then fail Failure.at_last_entry else (do
        next ← expect (get_elem? entries (current + 1)) Failure.out_of_range
        send (Command.navigate_to_history_entry next))

  unfoldable pub type_chars : ℕ → Text → Apply
  unfolding send
  type_chars millis [] = return tt
  type_chars millis (c ∷ text) = do
    send (Command.sleep millis)
    send (Command.insert_text c)
    type_chars millis text

  unfoldable pub press : ℕ → Option String → Apply
  unfolding send
  press code none = fail Failure.unknown_key
  press code (some name) = do
    send (Command.key KeyEvent.raw_key_down code name)
    send (Command.key KeyEvent.char code name)
    send (Command.key KeyEvent.key_up code name)

  unfoldable pub set_input_files : List String → ℕ → Apply
  unfolding send
  set_input_files files node =
      if node == 0 then fail Failure.no_element else send (Command.set_files files node)

  unfoldable pub apply : BrowserAction Point → Apply
  unfolding apply_back apply_forward type_chars press set_input_files
  apply BrowserAction.back = do
    send Command.get_navigation_history
    apply_back page.current_index page.entries
  apply BrowserAction.forward = do
    send Command.get_navigation_history
    apply_forward page.current_index page.entries
  apply BrowserAction.reload = send Command.reload
  apply BrowserAction.wait = return tt
  apply (BrowserAction.scroll_up origin distance) =
      send (Command.scroll_by origin distance (page.speed_of distance))
  apply (BrowserAction.scroll_down origin distance) =
      send (Command.scroll_by origin (page.negate distance) (page.speed_of distance))
  apply (BrowserAction.click name content point) = send (Command.click point)
  apply (BrowserAction.double_click name content point delay_millis) = do
    send (Command.click point)
    send (Command.sleep delay_millis)
    send (Command.click point)
  apply (BrowserAction.type_text text delay_millis) = type_chars delay_millis (codes text)
  apply (BrowserAction.press_key code) = press code (key_name code)
  apply (BrowserAction.set_file_input_files selector files) = do
    send Command.get_document
    send (Command.query_selector page.root selector)
    set_input_files files (page.node_of selector)
