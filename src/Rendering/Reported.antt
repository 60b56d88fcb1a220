-- ===== src/Rendering/Reported.antt =====
-- That the rendering of a violation by lib/bombadil-schema/src/markup.rs leaves no snapshot out.
use mathlib.Core.List.{Perm, append-nil, map-append}
use mathlib.Core.List.Perm
use bombadil.Common.{
  ℕ, true, false, none, some, List, [], ◌∷◌, ◌++◌, map, ◌≡◌, refl, inl, inr, Bool-cases,
}
use bombadil.Common.Text.{Text}
use bombadil.Schema.Types.{Snapshot, EventuallyViolation, Formula, Violation, PropertyViolation}
use bombadil.Rendering.Markup.{SnapshotMarkup}
use bombadil.Rendering.Violations.{
  render_code, contains_newline, render_formula, render_violation_inner, render_violation,
  get_violation_time,
}
use bombadil.Rendering.Shown.{shown, rendered, carried, shown-render_snapshot_values}

shown-render_code : (code : Text) → shown (render_code code) ≡ []
unfolding render_code shown
shown-render_code code = elim (Bool-cases (contains_newline code)) [
  | inl e ↦ rw e refl
  | inr e ↦ rw e refl
]

shown-render_formula : (formula : Formula) → shown (render_formula formula) ≡ []
unfolding render_formula shown
shown-render_formula (Formula.pure value pretty) = shown-render_code _
shown-render_formula (Formula.thunk function true) = shown-render_code _
shown-render_formula (Formula.thunk function false) = shown-render_code _
shown-render_formula (Formula.and left right) =
    rw (shown-render_formula left, shown-render_formula right) refl
shown-render_formula (Formula.or left right) =
    rw (shown-render_formula left, shown-render_formula right) refl
shown-render_formula (Formula.implies left right) =
    rw (shown-render_formula left, shown-render_formula right) refl
shown-render_formula (Formula.next formula) = rw (shown-render_formula formula) refl
shown-render_formula (Formula.always formula none) = rw (shown-render_formula formula) refl
shown-render_formula (Formula.always formula (some bound)) = rw (shown-render_formula formula) refl
shown-render_formula (Formula.eventually formula none) = rw (shown-render_formula formula) refl
shown-render_formula (Formula.eventually formula (some bound)) =
    rw (shown-render_formula formula) refl

both :
    (ms ns : List SnapshotMarkup) (xs ys : List Snapshot)
    → Perm ms (map rendered xs)
    → Perm ns (map rendered ys)
    → Perm (ms ++ (ns ++ [])) (map rendered (xs ++ ys))
both ms ns xs ys p q = rw (append-nil ns, map-append) (Perm.append p q)

shown-inner :
    (violation : Violation) (time : ℕ)
    → Perm (shown (render_violation_inner violation time)) (map rendered (carried violation))
unfolding render_violation_inner shown carried
shown-inner (Violation.false_at t condition []) time = rw shown-render_code Perm.nil
shown-inner (Violation.false_at t condition (s ∷ snapshots)) time =
    shown-render_snapshot_values (s ∷ snapshots) time
shown-inner (Violation.eventually subformula (EventuallyViolation.timed_out t)) time =
    rw shown-render_formula Perm.nil
shown-inner (Violation.eventually subformula EventuallyViolation.test_ended) time =
    rw shown-render_formula Perm.nil
shown-inner (Violation.always violation subformula start none t) time =
    rw (shown-render_formula, append-nil) (shown-inner violation t)
shown-inner (Violation.always violation subformula start (some end) t) time =
    rw (shown-render_formula, append-nil) (shown-inner violation t)
shown-inner (Violation.and left right) time =
    both _ _ (carried left) (carried right) (shown-inner left time) (shown-inner right time)
shown-inner (Violation.or left right) time =
    both _ _ (carried left) (carried right) (shown-inner left time) (shown-inner right time)
shown-inner (Violation.implies left right []) time =
    rw (shown-render_formula, append-nil) (shown-inner right (get_violation_time right))
shown-inner (Violation.implies left right (s ∷ antecedent)) time =
    let t = get_violation_time right in
    both _ _ (s ∷ antecedent) (carried right) (shown-render_snapshot_values (s ∷ antecedent) t)
      (shown-inner right t)

-- The markup of a violation shows the snapshots that the violation carries, with their names and
-- values, each as often as it is carried, and no others.
pub shown-render_violation :
    (property : PropertyViolation)
    → Perm (shown (render_violation property)) (map rendered (carried property.violation))
unfolding render_violation
shown-render_violation property =
    shown-inner property.violation (get_violation_time property.violation)
