-- ===== src/Cli/Tests.antt =====
-- The theorems of `Cli` at a short test.
use bombadil.Common.{ℕ, ◌≡◌, refl, true, false, inr, none, some, List, [], ◌∷◌, ◌++◌, arith}
use bombadil.Common.Run.{Ends}
use bombadil.Common.Run
use bombadil.Common.Text.{codes, trim, decimal, is_whitespace, is_digit, value, same_text}
use bombadil.Common.Result.{ok, err}
use bombadil.Cli.Render.{Formats, format_action}
use bombadil.Rendering.Json.{maybe_blue, maybe_bold, maybe_red}
use bombadil.Cli.Heading.{heading_of}
use bombadil.Runner.Action.{BrowserAction}
use bombadil.Cli.Durations.{
  DurationError, split_digits, parse_digits, in_seconds, checked_mul, parse_duration,
  format_duration,
}
use bombadil.Cli.Durations.RoundTrip.{parse_duration-format_duration}
use bombadil.Cli.Durations.Sound.{Spells, parse_duration-Spells}
use bombadil.Cli.Observer.{ExitReason, MainObserver, Observed, Effect, exit_code}
use bombadil.Cli.Through.{Counts, observe_all}
use bombadil.Cli.Counts.{observe_all-new-Counts}

abbrev states : List (Observed ℕ)
states =
    record { timestamp = 5000; has_last_action = false; violations = []; writes = some tt }
    ∷ record { timestamp = 6000; has_last_action = true; violations = 7 ∷ []; writes = some tt }
    ∷ record { timestamp = 9000; has_last_action = true; violations = 8 ∷ []; writes = some tt }
    ∷ []

abbrev fresh : MainObserver
fresh = record {
  stops_on_violation = true;
  test_start = none;
  deadline = some 7000;
  violations_count = 0;
}

stops_at_violation :
    observe_all states fresh []
    ≡ Run.ok (inr (record { exit_reason = ExitReason.exit_on_violation; violations_count = 1 })) (
        Effect.write_trace 6000 (7 ∷ [])
        ∷ Effect.print_violation 7 5
        ∷ Effect.print_action 5
        ∷ Effect.write_trace 5000 []
        ∷ [])
unfolding observe_all
stops_at_violation = refl

-- Without a result the exit code is 0, though the observer has counted a violation.
no_result : ◌≡◌ {A = ℕ} (exit_code none) 0
unfolding exit_code
no_result = refl

observe_all-new-Counts_example :
    Ends (Counts true (some 7000) 0 states) (λ _. Unit) (observe_all states fresh [])
observe_all-new-Counts_example = observe_all-new-Counts states true (some 7000) (omega arith)

two_hours : format_duration 7200 ≡ codes "2h"
unfolding format_duration decimal
two_hours = refl

parses_with_space : parse_duration (codes " 90m\n") ≡ ok 5400
unfolding parse_duration split_digits trim is_whitespace is_digit parse_digits value in_seconds
    same_text checked_mul
parses_with_space = refl

refuses :
    (parse_duration (codes "30") ≡ err (DurationError.missing_unit (codes "30")))
    × (parse_duration (codes "m") ≡ err (DurationError.missing_number (codes "m")))
    × (parse_duration (codes "1h30m") ≡ err (DurationError.unknown_unit (codes "h30m")))
    × (parse_duration (codes "0s") ≡ err DurationError.zero_duration)
    × (parse_duration (codes "999999999999999999d") ≡ err DurationError.too_large)
unfolding parse_duration split_digits trim is_whitespace is_digit parse_digits value in_seconds
    same_text checked_mul
refuses = (refl, refl, refl, refl, refl)

parse_duration-format_duration_example : parse_duration (format_duration 7200) ≡ ok 7200
parse_duration-format_duration_example =
    parse_duration-format_duration 7200 (omega arith) (omega arith)

parse_duration-Spells_example : Spells (trim (codes " 90m\n")) 5400
parse_duration-Spells_example = parse_duration-Spells (codes " 90m\n") 5400 parses_with_space

abbrev formats : Formats ℕ
formats = record {
  style = record {
    supports_color = true;
    blue = λ s. codes "*" ++ s;
    bold = λ s. s;
    italic = λ s. s;
    dimmed = λ s. s;
    red = λ s. codes "!" ++ s;
    to_string = λ s. s;
  };
  debug = λ s. s;
  x_of = decimal;
  y_of = decimal;
  pixels = λ x. codes "7px";
}

prints_click :
    format_action formats (BrowserAction.click "b" none 3) ≡ codes "Clicking <b> (x: *3, y: *3)"
unfolding format_action maybe_blue maybe_bold decimal
prints_click = refl

announces :
    heading_of formats.style
      (some (record { exit_reason = ExitReason.time_limit; violations_count = 12 }))
    ≡ codes "!Test finished after time limit, finding 12 violations!"
unfolding heading_of maybe_bold maybe_red decimal
announces = refl
