-- ===== src/Runner/Sends.antt =====
-- `BrowserAction::apply` of lib/bombadil/src/browser/actions.rs against what the action is to send.
use bombadil.Common.{
  ℕ, zero, suc, String, true, false, Option, none, some, List, [], ◌∷◌, ◌≡◌, refl, ap, get_elem?,
  length, leb, ◌==◌, ◌+◌, Bool-cases, inl, inr, arith,
}
use bombadil.Common.Text.{Text, codes}
use bombadil.Common.Run.{Run, ok, err, out_of_fuel, fail, expect, ◌>>=◌, ◌>>◌}
use bombadil.Keys.{key_name}
use bombadil.Runner.Action.{BrowserAction}
use bombadil.Runner.Apply.{
  KeyEvent, Command, Failure, Page, Sent, Apply, send, apply_back, apply_forward, type_chars, press,
  set_input_files, apply,
}
use bombadil.Runner.Outcome.{
  navigation, previous, setting_files, typing, key_presses, commands_of, missing, back_outcome,
  element_outcome, outcome_of, passes, IsRefused, Finishes,
}

module _ {Point : Type 0} (page : Page Point) where
  abbrev pub Sends : List (Command Point) → Option Failure → Apply page → Type 0
  Sends cs outcome m = (before : Sent page) → Finishes page cs outcome before (m before)

  fail-Sends : (e : Failure) → Sends [] (some e) (fail e)
  fail-Sends e before = inl (refl, tt, refl)

  later :
      (c : Command Point) (cs : List (Command Point)) (outcome : Option Failure)
      (before : Sent page) (r : Run (Sent page) Failure (Unit {0}))
      → passes page before c ≡ true
      → Finishes page cs outcome (c ∷ before) r
      → Finishes page (c ∷ cs) outcome before r
  later c cs outcome before (ok a sent) p h = (h.0, (p, h.1), h.2)
  later c cs outcome before (err e sent) p (inl h) = inl (h.0, (p, h.1), h.2)
  later c cs outcome before (err e sent) p (inr h) =
      let stop = h.1 in
      inr (
        h.0,
        record {
          done = c ∷ stop.done;
          refused = stop.refused;
          rest = stop.rest;
          are_commands = ap (λ rest. c ∷ rest) stop.are_commands;
          pass = (p, stop.pass);
          is_refused = stop.is_refused;
          sends = stop.sends;
        },
      )
  later c cs outcome before out_of_fuel p h = elim h [ ]

  IsRefused-at :
      (c : Command Point) (cs : List (Command Point)) (before : Sent page)
      → passes page before c ≡ false
      → IsRefused page (c ∷ cs) before (c ∷ before)
  IsRefused-at c cs before e = record {
    done = [];
    refused = c;
    rest = cs;
    are_commands = refl;
    pass = tt;
    is_refused = e;
    sends = refl;
  }

  then_Sends :
      (c : Command Point) (cs : List (Command Point)) (outcome : Option Failure) (k : Apply page)
      → Sends cs outcome k
      → Sends (c ∷ cs) outcome (send page c >> k)
  unfolding send
  then_Sends c cs outcome k h before = elim (Bool-cases (passes page before c)) [
    | inl e ↦ rw e (later c cs outcome before (k (c ∷ before)) e (h (c ∷ before)))
    | inr e ↦ rw e (inr (refl, IsRefused-at c cs before e))
  ]

  last_Sends : (c : Command Point) → Sends (c ∷ []) none (send page c)
  unfolding send
  last_Sends c before = elim (Bool-cases (passes page before c)) [
    | inl e ↦ rw e (refl, (e, tt), refl)
    | inr e ↦ rw e (inr (refl, IsRefused-at c [] before e))
  ]

  three_Sends :
      (c d e : Command Point)
      → Sends (c ∷ d ∷ e ∷ []) none (send page c >> (send page d >> send page e))
  three_Sends c d e =
      then_Sends c (d ∷ e ∷ []) none (send page d >> send page e)
        (then_Sends d (e ∷ []) none (send page e) (last_Sends e))

  expect-Sends :
      (o : Option ℕ) (e : Failure)
      → Sends
          (navigation page o)
          (missing page o e)
          (expect o e >>= λ entry. send page (Command.navigate_to_history_entry entry))
  expect-Sends none e = fail-Sends e
  expect-Sends (some entry) e = last_Sends (Command.navigate_to_history_entry entry)

  back_Sends :
      (current : ℕ) (entries : List ℕ)
      → Sends
          (navigation page (previous page current entries))
          (back_outcome page current entries)
          (apply_back page current entries)
  unfolding apply_back
  back_Sends zero entries = fail-Sends Failure.at_first_entry
  back_Sends (suc index) entries = expect-Sends (get_elem? entries index) Failure.out_of_range

  get-past : (entries : List ℕ) (i : ℕ) → leb (length entries) i ≡ true → get_elem? entries i ≡ none
  get-past [] i h = refl
  get-past (x ∷ entries) zero h = absurd (ground (arith, h))
  get-past (x ∷ entries) (suc i) h = get-past entries i (ground (arith, h))

  get-within :
      (entries : List ℕ) (i : ℕ)
      → leb (length entries) i ≡ false
      → (e d : Failure)
      → missing page (get_elem? entries i) e ≡ missing page (get_elem? entries i) d
  get-within [] i h e d = absurd (ground (arith, h))
  get-within (x ∷ entries) zero h e d = refl
  get-within (x ∷ entries) (suc i) h e d = get-within entries i (ground (arith, h)) e d

  forward_Sends :
      (current : ℕ) (entries : List ℕ)
      → Sends
          (navigation page (get_elem? entries (current + 1)))
          (missing page (get_elem? entries (current + 1)) Failure.at_last_entry)
          (apply_forward page current entries)
  unfolding apply_forward
  forward_Sends current entries before = elim (Bool-cases (leb (length entries) (current + 1))) [
    | inl e ↦ rw (e, get-past entries (current + 1) e) (fail-Sends Failure.at_last_entry before)
    | inr e ↦
        rw (e, get-within entries (current + 1) e Failure.at_last_entry Failure.out_of_range)
          (expect-Sends (get_elem? entries (current + 1)) Failure.out_of_range before)
  ]

  type_Sends :
      (millis : ℕ) (text : Text)
      → Sends (typing page millis text) none (type_chars page millis text)
  unfolding type_chars
  type_Sends millis [] = λ before. (refl, tt, refl)
  type_Sends millis (c ∷ text) =
      let rest = type_chars page millis text in
      then_Sends (Command.sleep millis) (Command.insert_text c ∷ typing page millis text) none
        (send page (Command.insert_text c) >> rest)
        (then_Sends (Command.insert_text c) (typing page millis text) none rest
          (type_Sends millis text))

  press-Sends :
      (code : ℕ) (name : Option String)
      → Sends
          (key_presses page code name)
          (missing page name Failure.unknown_key)
          (press page code name)
  unfolding press
  press-Sends code none = fail-Sends Failure.unknown_key
  press-Sends code (some name) =
      three_Sends (Command.key KeyEvent.raw_key_down code name)
        (Command.key KeyEvent.char code name) (Command.key KeyEvent.key_up code name)

  files_Sends :
      (files : List String) (node : ℕ)
      → Sends
          (setting_files page files node)
          (element_outcome page node)
          (set_input_files page files node)
  unfolding set_input_files
  files_Sends files zero before = fail-Sends Failure.no_element before
  files_Sends files (suc node) before = elim (Bool-cases (suc node == 0)) [
    | inl e ↦ absurd (ground (arith, e))
    | inr e ↦ rw e (last_Sends (Command.set_files files (suc node)) before)
  ]

  -- Applying an action sends the commands of the action, in their order, up to the first that the
  -- page refuses, and then fails as the page does. Where the page refuses none of them, all are
  -- sent, and the action fails exactly in these cases: back at the first entry of the history or
  -- with no entry before the current one, forward with no entry after it, a key without a name, and
  -- files for an element that is not found, each with its own error; else it succeeds.
  pub apply-Sends :
      (action : BrowserAction Point)
      → Sends (commands_of page action) (outcome_of page action) (apply page action)
  unfolding apply
  apply-Sends BrowserAction.back =
      then_Sends Command.get_navigation_history
        (navigation page (previous page page.current_index page.entries))
        (back_outcome page page.current_index page.entries)
        (apply_back page page.current_index page.entries)
        (back_Sends page.current_index page.entries)
  apply-Sends BrowserAction.forward =
      let next = get_elem? page.entries (page.current_index + 1) in
      then_Sends Command.get_navigation_history (navigation page next)
        (missing page next Failure.at_last_entry)
        (apply_forward page page.current_index page.entries)
        (forward_Sends page.current_index page.entries)
  apply-Sends BrowserAction.reload = last_Sends Command.reload
  apply-Sends BrowserAction.wait = λ before. (refl, tt, refl)
  apply-Sends (BrowserAction.scroll_up origin distance) =
      last_Sends (Command.scroll_by origin distance (page.speed_of distance))
  apply-Sends (BrowserAction.scroll_down origin distance) =
      last_Sends (Command.scroll_by origin (page.negate distance) (page.speed_of distance))
  apply-Sends (BrowserAction.click name content point) = last_Sends (Command.click point)
  apply-Sends (BrowserAction.double_click name content point delay_millis) =
      three_Sends (Command.click point) (Command.sleep delay_millis) (Command.click point)
  apply-Sends (BrowserAction.type_text text delay_millis) = type_Sends delay_millis (codes text)
  apply-Sends (BrowserAction.press_key code) = press-Sends code (key_name code)
  apply-Sends (BrowserAction.set_file_input_files selector files) =
      let node = page.node_of selector in
      let setting = set_input_files page files node in
      let query = Command.query_selector page.root selector in
      then_Sends Command.get_document (query ∷ setting_files page files node)
        (element_outcome page node) (send page query >> setting)
        (then_Sends query (setting_files page files node) (element_outcome page node) setting
          (files_Sends files node))
