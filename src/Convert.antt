-- ===== src/Convert.antt =====
-- The logic over the snapshots of a page (lib/bombadil/src/specification/domain.rs), and what the
-- worker (worker.rs) and lib/bombadil/src/specification/convert.rs make of its values.
pub mod Reported
mod Tests
use bombadil.Common.{ℕ, Bool, String, Option, none, some, List, [], ◌∷◌, map, ltb}
use bombadil.Common.Text.{Text}
use bombadil.Ltl.Domain.{Domain}
use bombadil.Ltl.Formula
use bombadil.Ltl.Formula.{Formula}
use bombadil.Ltl.Violation
use bombadil.Ltl.Violation.{Violation, EventuallyViolation}
use bombadil.Ltl.Value.{Value}
use bombadil.Snapshots.{Key, merge, is_empty}
use bombadil.Schema.Time.{Duration, add}
use bombadil.Schema.Types as Schema
use bombadil.Schema.Types.{Json}
use bombadil.Runner.Loop.{PropertyValue}

pub record Snapshot : Type 0 where
  pub index : ℕ
  pub name : Option String
  pub value : Json
  pub time : ℕ

abbrev pub UniqueSnapshots : Type 0
UniqueSnapshots = List (Key × Snapshot)

abbrev pub BombadilDomain : Type 0 → Domain
BombadilDomain F = record {
  Function = F;
  Time = ℕ;
  Duration = Duration;
  State = UniqueSnapshots;
  before = ltb;
  add = add;
  default = [];
  merge = merge;
  is_empty = is_empty;
}

-- A function of the JavaScript runtime: its object and its print.
pub record RuntimeFunction (JsObject : Type 0) : Type 0 where
  pub object : JsObject
  pub pretty : String

-- `PrettyFunction` is its text.
unfoldable pub formula_with_pretty_functions :
    {J : Type 0} → Formula (BombadilDomain (RuntimeFunction J)) → Formula (BombadilDomain String)
unfolding Formula.map_function_ref
formula_with_pretty_functions formula = Formula.map_function_ref (λ f. f.pretty) formula

unfoldable pub violation_with_pretty_functions :
    {J : Type 0}
    → Violation (BombadilDomain (RuntimeFunction J))
    → Violation (BombadilDomain String)
unfolding Violation.map_function_ref
violation_with_pretty_functions violation = Violation.map_function_ref (λ f. f.pretty) violation

-- `From<&eval::Value>` for `PropertyValue`.
unfoldable pub property_value :
    {J : Type 0}
    → Value (BombadilDomain (RuntimeFunction J))
    → PropertyValue (Violation (BombadilDomain String))
unfolding violation_with_pretty_functions
property_value (Value.true_with state) = PropertyValue.true_value
property_value (Value.false_with violation continuation) =
    PropertyValue.false_with (violation_with_pretty_functions violation)
property_value (Value.residual residual) = PropertyValue.residual

unfoldable pub snapshot_to_schema : Snapshot → Schema.Snapshot
snapshot_to_schema s = record { index = s.index; name = s.name; value = s.value; time = s.time }

-- `state.values()`, each converted.
unfoldable pub values_to_schema : UniqueSnapshots → List Schema.Snapshot
unfolding snapshot_to_schema
values_to_schema [] = []
values_to_schema ((key, s) ∷ state) = snapshot_to_schema s ∷ values_to_schema state

unfoldable pub reason_to_schema : EventuallyViolation ℕ → Schema.EventuallyViolation
reason_to_schema (EventuallyViolation.timed_out time) = Schema.EventuallyViolation.timed_out time
reason_to_schema EventuallyViolation.test_ended = Schema.EventuallyViolation.test_ended

unfoldable pub formula_to_schema : Formula (BombadilDomain String) → Schema.Formula
formula_to_schema (Formula.pure value pretty) = Schema.Formula.pure value pretty
formula_to_schema (Formula.thunk function negated) = Schema.Formula.thunk function negated
formula_to_schema (Formula.and left right) =
    Schema.Formula.and (formula_to_schema left) (formula_to_schema right)
formula_to_schema (Formula.or left right) =
    Schema.Formula.or (formula_to_schema left) (formula_to_schema right)
formula_to_schema (Formula.implies left right) =
    Schema.Formula.implies (formula_to_schema left) (formula_to_schema right)
formula_to_schema (Formula.next formula) = Schema.Formula.next (formula_to_schema formula)
formula_to_schema (Formula.always formula bound) =
    Schema.Formula.always (formula_to_schema formula) bound
formula_to_schema (Formula.eventually formula bound) =
    Schema.Formula.eventually (formula_to_schema formula) bound

unfoldable pub to_schema : Violation (BombadilDomain String) → Schema.Violation
unfolding values_to_schema reason_to_schema formula_to_schema
to_schema (Violation.false_at time condition state) =
    Schema.Violation.false_at time condition (values_to_schema state)
to_schema (Violation.eventually subformula reason) =
    Schema.Violation.eventually (formula_to_schema subformula) (reason_to_schema reason)
to_schema (Violation.always violation subformula start end time) =
    Schema.Violation.always (to_schema violation) (formula_to_schema subformula) start end time
to_schema (Violation.and left right) = Schema.Violation.and (to_schema left) (to_schema right)
to_schema (Violation.or left right) = Schema.Violation.or (to_schema left) (to_schema right)
to_schema (Violation.implies left right state) =
    Schema.Violation.implies (formula_to_schema left) (to_schema right) (values_to_schema state)
