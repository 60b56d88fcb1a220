-- ===== src/Runner/Action.antt =====
-- Actions: `JsAction` and `to_browser_action` of lib/bombadil/src/specification/js.rs,
-- `BrowserAction` of lib/bombadil/src/browser/actions.rs, and `action_timeout` of
-- lib/bombadil/src/runner.rs.
use bombadil.Common.{
  ℕ, ◌+◌, ◌*◌, ◌-◌, ◌^◌, Bool, true, false, ◌&&◌, ◌||◌, String, Option, List, ltb, leb, ◌==◌,
  if◌then◌else◌,
}
use bombadil.Common.Run.{Comp, return, fail}

-- What the code sees of an `f64`: whether it is finite and negative (`< 0.0`), and else its whole
-- part and whether it has a fractional part.
pub data Float : Type 0 where
  not_finite negative : Float
  non_negative : ℕ → Bool → Float

abbrev max_u64 : ℕ
max_u64 = 2 ^ 64 - 1

-- `value > bound`, for a whole number.
abbrev pub exceeds : ℕ → Bool → ℕ → Bool
exceeds whole fraction bound = ltb bound whole || whole == bound && fraction

abbrev pub saturate : ℕ → ℕ
saturate n = if leb n max_u64 then n else max_u64

module _ (Point : Type 0) where
  pub data JsAction : Type 0 where
    back forward reload wait : JsAction
    click : String → Option String → Point → JsAction
    double_click : String → Option String → Point → Float → JsAction
    type_text : String → Float → JsAction
    press_key : Float → JsAction
    scroll_up scroll_down : Point → Float → JsAction
    set_file_input_files : String → List String → JsAction

  pub data BrowserAction : Type 0 where
    back forward reload wait : BrowserAction
    click : String → Option String → Point → BrowserAction
    double_click : String → Option String → Point → ℕ → BrowserAction
    type_text : String → ℕ → BrowserAction
    press_key : ℕ → BrowserAction
    scroll_up scroll_down : Point → Float → BrowserAction
    set_file_input_files : String → List String → BrowserAction

pub data ActionError : Type 0 where
  delay_not_finite delay_too_long code_out_of_range : ActionError

module _ {Point W : Type 0} where
  -- `as u64` of a number that is not negative saturates.
  abbrev double_click_after :
      String → Option String → Point → Float → Comp W ActionError (BrowserAction Point)
  double_click_after name content point Float.not_finite = fail ActionError.delay_not_finite
  double_click_after name content point Float.negative = fail ActionError.delay_not_finite
  double_click_after name content point (Float.non_negative whole fraction) =
      if exceeds whole fraction 1000
      then fail ActionError.delay_too_long
      else return (BrowserAction.double_click name content point (saturate whole))

  abbrev type_text_after : String → Float → Comp W ActionError (BrowserAction Point)
  type_text_after text Float.not_finite = fail ActionError.delay_not_finite
  type_text_after text Float.negative = fail ActionError.delay_not_finite
  type_text_after text (Float.non_negative whole fraction) =
      return (BrowserAction.type_text text (saturate whole))

  abbrev press_key_of : Float → Comp W ActionError (BrowserAction Point)
  press_key_of Float.not_finite = fail ActionError.code_out_of_range
  press_key_of Float.negative = fail ActionError.code_out_of_range
  press_key_of (Float.non_negative whole fraction) =
      if exceeds whole fraction 255 || fraction
      then fail ActionError.code_out_of_range
      else return (BrowserAction.press_key whole)

  unfoldable pub to_browser_action : JsAction Point → Comp W ActionError (BrowserAction Point)
  to_browser_action JsAction.back = return BrowserAction.back
  to_browser_action JsAction.forward = return BrowserAction.forward
  to_browser_action JsAction.reload = return BrowserAction.reload
  to_browser_action (JsAction.click name content point) =
      return (BrowserAction.click name content point)
  to_browser_action (JsAction.double_click name content point delay) =
      double_click_after name content point delay
  to_browser_action (JsAction.type_text text delay) = type_text_after text delay
  to_browser_action (JsAction.press_key code) = press_key_of code
  to_browser_action (JsAction.scroll_up origin distance) =
      return (BrowserAction.scroll_up origin distance)
  to_browser_action (JsAction.scroll_down origin distance) =
      return (BrowserAction.scroll_down origin distance)
  to_browser_action JsAction.wait = return BrowserAction.wait
  to_browser_action (JsAction.set_file_input_files selector files) =
      return (BrowserAction.set_file_input_files selector files)

module _ {Point : Type 0} where
  -- `matches!(a, BrowserAction::Back)`.
  abbrev pub is_back : BrowserAction Point → Bool
  is_back BrowserAction.back = true
  is_back _ = false

  -- In milliseconds; `len` is the length of a text in bytes.
  unfoldable pub action_timeout : (String → ℕ) → BrowserAction Point → ℕ
  action_timeout len BrowserAction.back = 2000
  action_timeout len BrowserAction.forward = 2000
  action_timeout len BrowserAction.reload = 2000
  action_timeout len (BrowserAction.click _ _ _) = 500
  action_timeout len (BrowserAction.double_click _ _ _ delay) = saturate (delay + 500)
  action_timeout len (BrowserAction.type_text text delay) =
      saturate (saturate (delay * len text) + 100)
  action_timeout len (BrowserAction.press_key _) = 50
  action_timeout len (BrowserAction.scroll_up _ _) = 100
  action_timeout len (BrowserAction.scroll_down _ _) = 100
  action_timeout len BrowserAction.wait = 1000
  action_timeout len (BrowserAction.set_file_input_files _ _) = 100
