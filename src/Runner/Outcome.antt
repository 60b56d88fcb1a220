-- ===== src/Runner/Outcome.antt =====
-- What an action of lib/bombadil/src/browser/actions.rs is to send to the page, and how it is to end:
-- written down from the actions alone, for comparison with `apply`.
use bombadil.Common.{
  ℕ, zero, suc, String, Bool, true, false, Option, none, some, List, [], ◌∷◌, ◌++◌, ◌≡◌, get_elem?,
  ◌||◌, ◌+◌, ◌⊎◌,
}
use bombadil.Common.Text.{Text, codes}
use bombadil.Common.Run.{Run, ok, err, out_of_fuel}
use bombadil.Keys.{key_name}
use bombadil.Runner.Action.{BrowserAction}
use bombadil.Runner.Apply.{KeyEvent, Command, Failure, Page, Sent, is_pause}

module _ {Point : Type 0} (page : Page Point) where
  abbrev pub navigation : Option ℕ → List (Command Point)
  navigation none = []
  navigation (some entry) = Command.navigate_to_history_entry entry ∷ []

  -- The entry before one, unless it is the first.
  abbrev pub previous : ℕ → List ℕ → Option ℕ
  previous zero entries = none
  previous (suc index) entries = get_elem? entries index

  abbrev pub setting_files : List String → ℕ → List (Command Point)
  setting_files files zero = []
  setting_files files (suc node) = Command.set_files files (suc node) ∷ []

  abbrev pub typing : ℕ → Text → List (Command Point)
  typing millis [] = []
  typing millis (c ∷ text) = Command.sleep millis ∷ Command.insert_text c ∷ typing millis text

  abbrev pub key_presses : ℕ → Option String → List (Command Point)
  key_presses code none = []
  key_presses code (some name) =
      Command.key KeyEvent.raw_key_down code name
      ∷ Command.key KeyEvent.char code name
      ∷ Command.key KeyEvent.key_up code name
      ∷ []

  -- The commands of an action, in their order.
  abbrev pub commands_of : BrowserAction Point → List (Command Point)
  commands_of BrowserAction.back =
      Command.get_navigation_history ∷ navigation (previous page.current_index page.entries)
  commands_of BrowserAction.forward =
      Command.get_navigation_history ∷ navigation (get_elem? page.entries (page.current_index + 1))
  commands_of BrowserAction.reload = Command.reload ∷ []
  commands_of BrowserAction.wait = []
  commands_of (BrowserAction.scroll_up origin distance) =
      Command.scroll_by origin distance (page.speed_of distance) ∷ []
  commands_of (BrowserAction.scroll_down origin distance) =
      Command.scroll_by origin (page.negate distance) (page.speed_of distance) ∷ []
  commands_of (BrowserAction.click name content point) = Command.click point ∷ []
  commands_of (BrowserAction.double_click name content point delay_millis) =
      Command.click point ∷ Command.sleep delay_millis ∷ Command.click point ∷ []
  commands_of (BrowserAction.type_text text delay_millis) = typing delay_millis (codes text)
  commands_of (BrowserAction.press_key code) = key_presses code (key_name code)
  commands_of (BrowserAction.set_file_input_files selector files) =
      Command.get_document
      ∷ Command.query_selector page.root selector
      ∷ setting_files files (page.node_of selector)

  -- Why an action fails where the page accepts every command: there is no entry to go to, no name
  -- of the key, or no element.
  abbrev pub missing : {A : Type 0} → Option A → Failure → Option Failure
  missing none e = some e
  missing (some _) e = none

  abbrev pub back_outcome : ℕ → List ℕ → Option Failure
  back_outcome zero entries = some Failure.at_first_entry
  back_outcome (suc index) entries = missing (get_elem? entries index) Failure.out_of_range

  abbrev pub element_outcome : ℕ → Option Failure
  element_outcome zero = some Failure.no_element
  element_outcome (suc node) = none

  abbrev pub outcome_of : BrowserAction Point → Option Failure
  outcome_of BrowserAction.back = back_outcome page.current_index page.entries
  outcome_of BrowserAction.forward =
      missing (get_elem? page.entries (page.current_index + 1)) Failure.at_last_entry
  outcome_of (BrowserAction.press_key code) = missing (key_name code) Failure.unknown_key
  outcome_of (BrowserAction.set_file_input_files selector files) =
      element_outcome (page.node_of selector)
  outcome_of _ = none

  -- Commands that are sent one after the other.
  abbrev pub after : List (Command Point) → Sent page → Sent page
  after [] sent = sent
  after (c ∷ cs) sent = after cs (c ∷ sent)

  -- What becomes of a command: a pause passes, any other command if the page accepts it.
  abbrev pub passes : Sent page → Command Point → Bool
  passes sent c = is_pause page c || page.accepts sent c

  abbrev pub AllPass : List (Command Point) → Sent page → Type 0
  AllPass [] sent = Unit
  AllPass (c ∷ cs) sent = (passes sent c ≡ true) × AllPass cs (c ∷ sent)

  -- One of the commands is refused, after all before it have passed, and none after it is sent.
  pub record IsRefused (cs : List (Command Point)) (before sent : Sent page) : Type 0 where
    pub done : List (Command Point)
    pub refused : Command Point
    pub rest : List (Command Point)
    pub are_commands : done ++ refused ∷ rest ≡ cs
    pub pass : AllPass done before
    pub is_refused : passes (after done before) refused ≡ false
    pub sends : sent ≡ refused ∷ after done before

  -- Every command passes and is sent, and the outcome is success or the given failure; or one is
  -- refused, and the failure is the page's.
  abbrev pub Finishes :
      List (Command Point)
      → Option Failure
      → Sent page
      → Run (Sent page) Failure (Unit {0})
      → Type 0
  Finishes cs outcome before (ok _ sent) =
      (outcome ≡ none) × AllPass cs before × (sent ≡ after cs before)
  Finishes cs outcome before (err e sent) =
      ((outcome ≡ some e) × AllPass cs before × (sent ≡ after cs before))
      ⊎ ((e ≡ Failure.page_failed) × IsRefused cs before sent)
  Finishes cs outcome before out_of_fuel = ⊥
