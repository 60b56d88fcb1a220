-- ===== src/Verifier.antt =====
-- lib/bombadil/src/specification/verifier.rs: `Verifier::step`, which evaluates every property at a
-- state of the page. The JavaScript side, where extractors, thunks and generators run, is a
-- parameter. The properties are listed in the order in which the map gives them, which does not
-- change. After a failure the source keeps the properties that it has updated so far; the runner
-- stops there, so that this does not show.
pub mod Follow
pub mod Decided
pub mod Persist
mod Tests
use mathlib.Core.List.{filter_map}
use bombadil.Common.{
  ℕ, Bool, true, false, String, Option, none, some, List, [], ◌∷◌, ◌||◌, ◌++◌, get_elem?,
}
use bombadil.Common.Run.{Comp, return, ◌>>=◌, ◌>>◌}
use bombadil.Ltl.Domain.{Domain}
use bombadil.Ltl.Formula.{Formula}
use bombadil.Ltl.Syntax.{Syntax}
use bombadil.Ltl.Value.{Value, Residual}
use bombadil.Ltl.Eval.{EvaluateThunk, evaluate, step as evaluator_step}
use bombadil.Ltl.Semantics.Nnf.{thunk_formula}
use bombadil.Tree.{Tree, Branches, branch, none_left, weighted}

module _ (D : Domain) where
  pub data PropertyState : Type 0 where
    initial : Formula D → PropertyState
    residual : Residual D → PropertyState
    definitely_true definitely_false : PropertyState

  pub record Property : Type 0 where
    pub name : String
    pub state : PropertyState

  pub record StepResult (A : Type 0) : Type 0 where
    pub properties : List (String × Value D)
    pub actions : Tree A
    pub has_pending : Bool

-- The JavaScript runtime: `call` runs a function and tells which snapshots it has accessed,
-- `collect` makes the state of these, and `generate` runs a generator of actions.
pub record Runtime (D : Domain) (Snapshot Js Generator A W E : Type 0) : Type 0 where
  pub update_from_snapshots : List Snapshot → Comp W E (Unit {0})
  pub call : D.Function → Comp W E (List ℕ × Js)
  pub syntax_from_value : Js → Comp W E (Syntax D)
  pub collect : List Snapshot → D.State
  pub generate : Generator → Comp W E (Tree A)

module _ {D : Domain} where
  -- The match on a property's value: what is reported of it, and the property's state.
  unfoldable pub settle : Value D → Value D × PropertyState D
  settle (Value.true_with _) = (Value.true_with D.default, PropertyState.definitely_true)
  settle (Value.false_with violation (some continuation)) =
      (Value.false_with violation none, PropertyState.residual continuation)
  settle (Value.false_with violation none) =
      (Value.false_with violation none, PropertyState.definitely_false)
  settle (Value.residual r) = (Value.residual r, PropertyState.residual r)

  abbrev pub settled : Value D → Option (Value D) × PropertyState D
  settled value = let (report, state) = settle value in (some report, state)

  abbrev pub is_pending : PropertyState D → Bool
  is_pending (PropertyState.initial _) = true
  is_pending (PropertyState.residual _) = true
  is_pending _ = false

  -- `properties.any(…)`.
  unfoldable pub any_pending : List (Property D) → Bool
  any_pending [] = false
  any_pending (p ∷ ps) = is_pending p.state || any_pending ps

  abbrev pub report_of : String → Option (Value D) → List (String × Value D)
  report_of name none = []
  report_of name (some report) = (name, report) ∷ []

  module _ {W E : Type 0} (evaluate_thunk : EvaluateThunk D W E) (fuel : ℕ) (time : D.Time) where
    -- The body of the loop over the properties: what it reports, and the state after it.
    unfoldable pub step_state : PropertyState D → Comp W E (Option (Value D) × PropertyState D)
    unfolding settle
    step_state (PropertyState.initial formula) = do
      value ← evaluate evaluate_thunk fuel formula time
      return (settled value)
    step_state (PropertyState.residual r) = do
      value ← evaluator_step evaluate_thunk fuel r time
      return (settled value)
    step_state PropertyState.definitely_true = return (none, PropertyState.definitely_true)
    step_state PropertyState.definitely_false = return (none, PropertyState.definitely_false)

    unfoldable pub step_properties :
        List (Property D) → Comp W E (List (String × Value D) × List (Property D))
    unfolding step_state
    step_properties [] = return ([], [])
    step_properties (p ∷ ps) = do
      (report, state) ← step_state p.state
      (reports, ps') ← step_properties ps
      return (report_of p.name report ++ reports, record { name = p.name; state = state } ∷ ps')

-- `self.action_generators`, each with its tree, all of the weight 1.
unfoldable pub generate_all :
    {G A W E : Type 0} → (G → Comp W E (Tree A)) → List G → Comp W E (Branches A)
generate_all generate [] = return none_left
generate_all generate (g ∷ gs) = do
  tree ← generate g
  rest ← generate_all generate gs
  return (weighted 1 tree rest)

module _ {D : Domain} {Snapshot Js G A W E : Type 0} (runtime : Runtime D Snapshot Js G A W E) where
  unfoldable pub evaluate_thunk : List Snapshot → EvaluateThunk D W E
  unfolding thunk_formula
  evaluate_thunk snapshots function negated = do
    (indices, value) ← runtime.call function
    syntax ← runtime.syntax_from_value value
    return
        (thunk_formula syntax negated, runtime.collect (filter_map (get_elem? snapshots) indices))

  unfoldable pub step :
      ℕ
      → List G
      → List Snapshot
      → D.Time
      → List (Property D)
      → Comp W E (StepResult D A × List (Property D))
  unfolding evaluate_thunk step_properties any_pending generate_all
  step fuel generators snapshots time properties = do
    runtime.update_from_snapshots snapshots
    (reports, properties') ← step_properties (evaluate_thunk snapshots) fuel time properties
    branches ← generate_all runtime.generate generators
    return (
      record {
        properties = reports;
        actions = branch branches;
        has_pending = any_pending properties';
      },
      properties',
    )
