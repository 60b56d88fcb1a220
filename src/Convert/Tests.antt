-- ===== src/Convert/Tests.antt =====
-- The theorem of `Convert` at a violation with two states.
use mathlib.Core.List.{Perm}
use bombadil.Common.{String, none, some, false, [], ◌∷◌, map}
use bombadil.Common.Text.{codes}
use bombadil.Ltl.Formula.{Formula}
use bombadil.Ltl.Violation.{Violation}
use bombadil.Ltl.Violations.{states}
use bombadil.Schema.Types.{Json}
use bombadil.Rendering.Violations.{render_violation}
use bombadil.Rendering.Shown.{shown, rendered}
use bombadil.Convert.{
  BombadilDomain, RuntimeFunction, Snapshot, to_schema, violation_with_pretty_functions,
}
use bombadil.Convert.Reported.{snapshots_of, shown-render_violation-to_schema}

abbrev click_count : Snapshot
click_count = record { index = 0; name = some "clicks"; value = Json.number (codes "3"); time = 70 }

abbrev title : Snapshot
title = record { index = 1; name = none; value = Json.string (codes "Home"); time = 60 }

abbrev saved : RuntimeFunction String
saved = record { object = "object"; pretty = "saved" }

abbrev both_states : Violation (BombadilDomain (RuntimeFunction String))
both_states =
    Violation.implies (Formula.thunk saved false)
      (Violation.false_at 70 "saved" (((0, 70), click_count) ∷ ((1, 60), title) ∷ []))
      (((0, 70), click_count) ∷ [])

shown-render_violation-to_schema_example :
    let violation = to_schema (violation_with_pretty_functions both_states) in
    Perm
      (shown (render_violation (record { name = "saves"; violation = violation })))
      (map rendered (snapshots_of (states both_states)))
shown-render_violation-to_schema_example = shown-render_violation-to_schema "saves" both_states
