-- ===== src/Convert/Reported.antt =====
-- What a report shows of a violation that the evaluator gives: conversion and rendering together.
use mathlib.Core.List.{Perm, append-nil, append_assoc}
use bombadil.Common.{String, List, [], ◌∷◌, ◌++◌, map, ◌≡◌, refl, sym, ap, ◌∙◌}
use bombadil.Ltl.Domain.{Domain}
use bombadil.Ltl.Violation
use bombadil.Ltl.Violation.{Violation}
use bombadil.Ltl.Violations.{states}
use bombadil.Schema.Types as Schema
use bombadil.Rendering.Violations.{render_violation}
use bombadil.Rendering.Shown.{shown, rendered, carried}
use bombadil.Rendering.Reported.{shown-render_violation}
use bombadil.Convert.{
  BombadilDomain, RuntimeFunction, UniqueSnapshots, values_to_schema, to_schema,
  violation_with_pretty_functions,
}

-- The prints of functions do not touch the states.
states-map_function_ref :
    {D : Domain} {U : Type 0} (f : D.Function → U) (v : Violation D)
    → states (Violation.map_function_ref f v) ≡ states v
unfolding states Violation.map_function_ref
states-map_function_ref f (Violation.false_at _ _ state) = refl
states-map_function_ref f (Violation.eventually _ _) = refl
states-map_function_ref f (Violation.always v _ _ _ _) = states-map_function_ref f v
states-map_function_ref f (Violation.and l r) =
    rw (states-map_function_ref f l, states-map_function_ref f r) refl
states-map_function_ref f (Violation.or l r) =
    rw (states-map_function_ref f l, states-map_function_ref f r) refl
states-map_function_ref f (Violation.implies _ r state) =
    ap (λ rest. state ∷ rest) (states-map_function_ref f r)

-- The snapshots of some states, one state after the other.
abbrev pub snapshots_of : List UniqueSnapshots → List Schema.Snapshot
snapshots_of [] = []
snapshots_of (state ∷ rest) = values_to_schema state ++ snapshots_of rest

snapshots_of-append :
    (s t : List UniqueSnapshots) → snapshots_of (s ++ t) ≡ snapshots_of s ++ snapshots_of t
snapshots_of-append [] t = refl
snapshots_of-append (state ∷ s) t =
    ap (λ rest. values_to_schema state ++ rest) (snapshots_of-append s t)
    ∙ sym (append_assoc (values_to_schema state) (snapshots_of s) (snapshots_of t))

carried-to_schema :
    (v : Violation (BombadilDomain String)) → carried (to_schema v) ≡ snapshots_of (states v)
unfolding carried to_schema states
carried-to_schema (Violation.false_at _ _ state) = sym (append-nil (values_to_schema state))
carried-to_schema (Violation.eventually _ _) = refl
carried-to_schema (Violation.always v _ _ _ _) = carried-to_schema v
carried-to_schema (Violation.and l r) =
    rw (carried-to_schema l, carried-to_schema r) (sym (snapshots_of-append (states l) (states r)))
carried-to_schema (Violation.or l r) =
    rw (carried-to_schema l, carried-to_schema r) (sym (snapshots_of-append (states l) (states r)))
carried-to_schema (Violation.implies _ r state) =
    ap (λ rest. values_to_schema state ++ rest) (carried-to_schema r)

-- The report of a violation that the evaluator gives shows the snapshots of all the states of that
-- violation, with their names and values, each once for each state that has it, and no others.
pub shown-render_violation-to_schema :
    {J : Type 0} (name : String) (v : Violation (BombadilDomain (RuntimeFunction J)))
    → let violation = to_schema (violation_with_pretty_functions v) in
      Perm
        (shown (render_violation (record { name = name; violation = violation })))
        (map rendered (snapshots_of (states v)))
unfolding violation_with_pretty_functions
shown-render_violation-to_schema name v =
    let plain = Violation.map_function_ref (λ f. f.pretty) v in
    rw (← states-map_function_ref (λ f. f.pretty) v, ← carried-to_schema plain)
      (shown-render_violation (record { name = name; violation = to_schema plain }))
