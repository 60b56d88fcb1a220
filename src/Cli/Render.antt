-- ===== src/Cli/Render.antt =====
-- lib/bombadil-cli/src/render.rs: times and actions as they are printed during a test. The formats
-- of floats and the print with quotes, `{:?}`, are parameters.
use bombadil.Common.{ℕ, ◌-◌, String, true, Option, none, some, [], ◌++◌, length}
use bombadil.Common.Text.{Text, codes, decimal}
use bombadil.Schema.Time.{from_micros, format_duration}
use bombadil.Rendering.Json.{Style, maybe_blue, maybe_bold, maybe_dimmed}
use bombadil.Keys.{key_name}
use bombadil.Runner.Action.{Float, BrowserAction}
use bombadil.Cli.Observer.{from_system_time}

pub record Formats (Point : Type 0) : Type 0 where
  pub style : Style
  pub debug : Text → Text
  pub x_of : Point → Text
  pub y_of : Point → Text
  pub pixels : Float → Text

module _ {Point : Type 0} (F : Formats Point) where
  abbrev blue : Text → Text
  blue = maybe_blue F.style

  abbrev bold : String → Text
  bold s = maybe_bold F.style (codes s)

  -- A time in nanoseconds since 1970, after the start of the test in microseconds.
  unfoldable pub format_timestamp : ℕ → ℕ → Text
  format_timestamp timestamp test_start =
      maybe_dimmed F.style
        (format_duration (from_micros (from_system_time timestamp - test_start)) true)

  abbrev content_str : Option String → Text
  content_str none = []
  content_str (some c) = codes ", content: " ++ blue (F.debug (codes c))

  abbrev at_point : Point → Text
  at_point point = codes " (x: " ++ blue (F.x_of point) ++ codes ", y: " ++ blue (F.y_of point)

  abbrev millis : ℕ → Text
  millis n = blue (decimal n ++ codes "ms")

  abbrev key_or : Option String → Text
  key_or none = codes "Unknown"
  key_or (some key) = codes key

  unfoldable pub format_action : BrowserAction Point → Text
  format_action BrowserAction.back = bold "Going back"
  format_action BrowserAction.forward = bold "Going forward"
  format_action BrowserAction.reload = bold "Reloading page"
  format_action BrowserAction.wait = bold "Waiting"
  format_action (BrowserAction.click name content point) =
      bold "Clicking"
      ++ codes " <"
      ++ codes name
      ++ codes ">"
      ++ at_point point
      ++ content_str content
      ++ codes ")"
  format_action (BrowserAction.double_click name content point delay_millis) =
      bold "Double-clicking"
      ++ codes " <"
      ++ codes name
      ++ codes ">"
      ++ at_point point
      ++ codes ", delay: "
      ++ millis delay_millis
      ++ content_str content
      ++ codes ")"
  format_action (BrowserAction.type_text text delay_millis) =
      bold "Typing"
      ++ codes " "
      ++ blue (F.debug (codes text))
      ++ codes " (delay: "
      ++ millis delay_millis
      ++ codes ")"
  format_action (BrowserAction.press_key code) =
      bold "Pressing"
      ++ codes " "
      ++ key_or (key_name code)
      ++ codes " (code: "
      ++ blue (decimal code)
      ++ codes ")"
  format_action (BrowserAction.scroll_up origin distance) =
      bold "Scrolling up"
      ++ at_point origin
      ++ codes ", distance: "
      ++ blue (F.pixels distance)
      ++ codes ")"
  format_action (BrowserAction.scroll_down origin distance) =
      bold "Scrolling down"
      ++ at_point origin
      ++ codes ", distance: "
      ++ blue (F.pixels distance)
      ++ codes ")"
  format_action (BrowserAction.set_file_input_files selector files) =
      bold "Setting file input"
      ++ codes " "
      ++ blue (F.debug (codes selector))
      ++ codes " with "
      ++ blue (decimal (length files))
      ++ codes " file(s)"
