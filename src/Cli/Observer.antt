-- ===== src/Cli/Observer.antt =====
-- lib/bombadil-cli/src/main.rs: `MainObserver`, and the exit code of `main`. A `SystemTime` is its
-- nanoseconds since 1970. What is printed is an effect without its text; the trace is written by
-- lib/bombadil/src/trace/writer.rs, of which an answer tells whether it failed.
use bombadil.Common.{
  ℕ, ◌+◌, ◌/◌, ◌%◌, ◌^◌, Bool, true, false, ◌&&◌, Option, none, some, List, [], ◌∷◌, length, ltb,
  leb, if◌then◌else◌,
}
use bombadil.Common.Run.{Comp, return, emit, expect, ◌>>◌}
use bombadil.Runner.Loop.{ControlFlow}

pub data ExitReason : Type 0 where
  exit_on_violation time_limit interrupted : ExitReason

pub record TestResult : Type 0 where
  pub exit_reason : ExitReason
  pub violations_count : ℕ

pub record MainObserver : Type 0 where
  pub stops_on_violation : Bool
  pub test_start : Option ℕ
  pub deadline : Option ℕ
  pub violations_count : ℕ

-- `bombadil_schema::Time::from_system_time`, in microseconds.
abbrev pub from_system_time : ℕ → ℕ
from_system_time nanos = (nanos / 1000) % 2 ^ 64

-- A state, as far as the observer looks at it, and whether the trace was written.
pub record Observed (Violation : Type 0) : Type 0 where
  pub timestamp : ℕ
  pub has_last_action : Bool
  pub violations : List Violation
  pub writes : Option (Unit {0})

pub data Effect (Violation : Type 0) : Type 0 where
  -- An action, with the start of the test, and a violation.
  print_action : ℕ → Effect Violation
  print_violation : Violation → ℕ → Effect Violation
  write_trace : ℕ → List Violation → Effect Violation

pub data Failure : Type 0 where
  writer_failed : Failure

abbrev pub start_or : Option ℕ → ℕ → ℕ
start_or none timestamp = from_system_time timestamp
start_or (some start) timestamp = start

-- `self.deadline.is_some_and(|deadline| timestamp >= deadline)`.
abbrev pub is_reached : Option ℕ → ℕ → Bool
is_reached none timestamp = false
is_reached (some deadline) timestamp = leb deadline timestamp

-- The two tests after the trace is written.
unfoldable pub control_of : MainObserver → ℕ → ControlFlow TestResult
control_of self timestamp =
    if ltb 0 self.violations_count && self.stops_on_violation
    then ControlFlow.stop (record {
      exit_reason = ExitReason.exit_on_violation;
      violations_count = self.violations_count;
    })
    else if is_reached self.deadline timestamp
    then ControlFlow.stop
        (record { exit_reason = ExitReason.time_limit; violations_count = self.violations_count })
    else ControlFlow.continue

module _ {V : Type 0} where
  abbrev pub print_all : List V → ℕ → Comp (List (Effect V)) Failure (Unit {0})
  print_all [] start = return tt
  print_all (v ∷ vs) start = emit (Effect.print_violation v start) >> print_all vs start

  abbrev pub print_last_action : Bool → ℕ → Comp (List (Effect V)) Failure (Unit {0})
  print_last_action true start = emit (Effect.print_action start)
  print_last_action false start = return tt

  unfoldable pub on_new_state :
      MainObserver
      → Observed V
      → Comp (List (Effect V)) Failure (MainObserver × ControlFlow TestResult)
  unfolding control_of
  on_new_state self state =
      let start = start_or self.test_start state.timestamp in
      let self' : MainObserver = record self {
        test_start = some start;
        violations_count = (self.violations_count + length state.violations) % 2 ^ 64;
      } in
      do
        print_last_action state.has_last_action start
        print_all state.violations start
        expect state.writes Failure.writer_failed
        emit (Effect.write_trace state.timestamp state.violations)
        return (self', control_of self' state.timestamp)

-- `on_interrupted`.
unfoldable pub on_interrupted : MainObserver → TestResult
on_interrupted self = record {
  exit_reason = ExitReason.interrupted;
  violations_count = self.violations_count;
}

-- The exit code of `main` after a test that gave a result, or none.
unfoldable pub exit_code : Option TestResult → ℕ
exit_code none = 0
exit_code (some result) = if ltb 0 result.violations_count then 2 else 0
