-- ===== src/Runner/Timeouts.antt =====
-- The bounds of the actions of lib/bombadil/src/runner.rs: what `to_browser_action` lets through, and
-- how long `action_timeout` waits.
use bombadil.Common.{ℕ, ◌+◌, ◌*◌, ◌-◌, ◌^◌, ◌≤◌, ◌<◌, String, ◌⊎◌, inl, ◌≡◌, refl, arith, ◌||◌}
use bombadil.Common.Run.{Ends, Ends-if}
use bombadil.Runner.Action.{
  Float, exceeds, saturate, JsAction, BrowserAction, to_browser_action, action_timeout,
}

saturate-le : (n : ℕ) → saturate n ≤ 2 ^ 64 - 1
saturate-le n = ground arith

module _ {Point : Type 0} where
  -- A double click waits for a second at most, a delay fits a `u64`, and a key code a `u8`.
  abbrev pub IsValid : BrowserAction Point → Type 0
  IsValid (BrowserAction.double_click _ _ _ delay) = delay ≤ 1000
  IsValid (BrowserAction.type_text _ delay) = delay < 2 ^ 64
  IsValid (BrowserAction.press_key code) = code < 2 ^ 8
  IsValid _ = Unit

  -- The conversion of an action ends, and what it returns keeps to the bounds.
  pub to_browser_action-IsValid :
      {W : Type 0} (action : JsAction Point) (w : W)
      → Ends (λ a w'. IsValid a × (w' ≡ w)) (λ w'. w' ≡ w) (to_browser_action action w)
  unfolding to_browser_action
  to_browser_action-IsValid (JsAction.double_click _ _ _ Float.not_finite) w = refl
  to_browser_action-IsValid (JsAction.double_click _ _ _ Float.negative) w = refl
  to_browser_action-IsValid {W} (JsAction.double_click _ _ _ (Float.non_negative n fraction)) w =
      Ends-if (λ a w'. IsValid a × (w' ≡ w)) (λ w'. w' ≡ w) (exceeds n fraction 1000) _ _ w
        (λ _. refl) (λ e. (ground (arith, e), refl))
  to_browser_action-IsValid (JsAction.type_text _ Float.not_finite) w = refl
  to_browser_action-IsValid (JsAction.type_text _ Float.negative) w = refl
  to_browser_action-IsValid (JsAction.type_text _ (Float.non_negative n fraction)) w =
      (omega (arith, saturate-le n), refl)
  to_browser_action-IsValid (JsAction.press_key Float.not_finite) w = refl
  to_browser_action-IsValid (JsAction.press_key Float.negative) w = refl
  to_browser_action-IsValid {W} (JsAction.press_key (Float.non_negative n fraction)) w =
      Ends-if (λ a w'. IsValid a × (w' ≡ w)) (λ w'. w' ≡ w) (exceeds n fraction 255 || fraction) _ _
        w (λ _. refl) (λ e. (ground (arith, e), refl))
  to_browser_action-IsValid JsAction.back w = (tt, refl)
  to_browser_action-IsValid _ w = (tt, refl)

  -- The milliseconds that the action itself takes.
  abbrev pub duration : (String → ℕ) → BrowserAction Point → ℕ
  duration len (BrowserAction.double_click _ _ _ delay) = delay
  duration len (BrowserAction.type_text text delay) = delay * len text
  duration len _ = 0

  -- The timeout of an action is within a `u64` and at least 50 milliseconds, and it leaves the
  -- action 50 milliseconds more than it takes, or is the largest `u64`.
  pub action_timeout_lem :
      (len : String → ℕ) (action : BrowserAction Point)
      → (action_timeout len action < 2 ^ 64)
        × (50 ≤ action_timeout len action)
        × ((duration len action + 50 ≤ action_timeout len action)
            ⊎ (action_timeout len action ≡ 2 ^ 64 - 1))
  unfolding action_timeout
  action_timeout_lem len (BrowserAction.double_click _ _ _ delay) = ground arith
  action_timeout_lem len (BrowserAction.type_text text delay) = ground arith
  action_timeout_lem len BrowserAction.back = (omega arith, omega arith, inl (omega arith))
  action_timeout_lem len _ = (omega arith, omega arith, inl (omega arith))
