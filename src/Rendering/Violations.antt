-- ===== src/Rendering/Violations.antt =====
-- The rendering of lib/bombadil-schema/src/markup.rs.
use mathlib.Core.List.{reverse}
use bombadil.Common.{
  ℕ, ◌/◌, ◌%◌, Bool, true, false, ◌||◌, String, Option, none, some, List, [], ◌∷◌, ◌++◌, ltb, ◌==◌,
  if◌then◌else◌,
}
use bombadil.Common.Text.{Text, codes, decimal}
use bombadil.Schema.Time.{Duration, as_millis}
use bombadil.Schema.Types.{Snapshot, EventuallyViolation, Formula, Violation, PropertyViolation}
use bombadil.Rendering.Markup.{Inline, SnapshotMarkup, Markup, vec}

-- The time of `UNIX_EPOCH` is 0.
abbrev time_of_reason : EventuallyViolation → ℕ
time_of_reason (EventuallyViolation.timed_out time) = time
time_of_reason EventuallyViolation.test_ended = 0

unfoldable pub get_violation_time : Violation → ℕ
get_violation_time (Violation.false_at time condition snapshots) = time
get_violation_time (Violation.always violation subformula start end time) = time
get_violation_time (Violation.eventually subformula reason) = time_of_reason reason
get_violation_time (Violation.implies left right antecedent_snapshots) = get_violation_time right
get_violation_time (Violation.and left right) = get_violation_time left
get_violation_time (Violation.or left right) = get_violation_time left

unfoldable pub contains_newline : Text → Bool
contains_newline [] = false
contains_newline (c ∷ s) = (c == 10) || contains_newline s

unfoldable pub render_code : Text → Markup
render_code code =
    if contains_newline code then Markup.code_block code else Markup.span (Inline.code code ∷ [])

unfoldable pub snapshot_name : Snapshot → Text
snapshot_name snapshot = name_or snapshot.name
  where
    name_or : Option String → Text
    name_or (some name) = codes name
    name_or none = codes "extractors[" ++ decimal snapshot.index ++ codes "]"

unfoldable pub render_snapshot_items : List Snapshot → List SnapshotMarkup
render_snapshot_items [] = []
render_snapshot_items (s ∷ snapshots) =
    record { name = snapshot_name s; value = s.value } ∷ render_snapshot_items snapshots

-- The two halves of `partition`.
unfoldable pub at_time : ℕ → List Snapshot → List Snapshot
at_time time [] = []
at_time time (s ∷ snapshots) =
    let rest = at_time time snapshots in if s.time == time then s ∷ rest else rest

unfoldable pub not_at_time : ℕ → List Snapshot → List Snapshot
not_at_time time [] = []
not_at_time time (s ∷ snapshots) =
    let rest = not_at_time time snapshots in if s.time == time then rest else s ∷ rest

-- `by_time` is the list of its entries, in the order of the times.
unfoldable pub push_at : Snapshot → List (ℕ × List Snapshot) → List (ℕ × List Snapshot)
push_at s [] = (s.time, s ∷ []) ∷ []
push_at s ((time, group) ∷ groups) =
    let rest = push_at s groups in
    if s.time == time
    then (time, group ++ s ∷ []) ∷ groups
    else if ltb s.time time
    then (s.time, s ∷ []) ∷ (time, group) ∷ groups
    else (time, group) ∷ rest

unfoldable pub push_all : List Snapshot → List (ℕ × List Snapshot) → List (ℕ × List Snapshot)
push_all [] by_time = by_time
push_all (s ∷ other) by_time = push_all other (push_at s by_time)

unfoldable pub render_current : ℕ → List Snapshot → List Markup
render_current time [] = []
render_current time (s ∷ current) =
    Markup.span (Inline.text (codes "at ") ∷ Inline.time time ∷ [])
    ∷ Markup.comma
    ∷ Markup.snapshots (render_snapshot_items (s ∷ current))
    ∷ []

abbrev pub separated : List Markup → List Markup
separated [] = []
separated (m ∷ result) =
    (m ∷ result) ++ Markup.comma ∷ Markup.span (Inline.text (codes "and") ∷ []) ∷ []

-- The loop over `by_time.iter().rev()`.
unfoldable pub render_groups : List (ℕ × List Snapshot) → List Markup → List Markup
render_groups [] result = result
render_groups ((time, group) ∷ groups) result = render_groups groups (
    separated result
    ++ Markup.span (Inline.text (codes "from the prior state at ") ∷ Inline.time time ∷ [])
      ∷ Markup.comma
      ∷ Markup.snapshots (render_snapshot_items group)
      ∷ [])

unfoldable pub render_snapshot_values : List Snapshot → ℕ → Markup
render_snapshot_values snapshots current_time =
    let by_time = push_all (not_at_time current_time snapshots) [] in
    Markup.join (
      vec (
        render_groups (reverse by_time)
          (render_current current_time (at_time current_time snapshots))))

unfoldable pub format_bound : Duration → Text
format_bound duration =
    let milliseconds = as_millis duration in
    if milliseconds == 0
    then codes "0 milliseconds"
    else if milliseconds % 60000 == 0
    then (let minutes = milliseconds / 60000 in
        if minutes == 1 then codes "1 minute" else decimal minutes ++ codes " minutes")
    else if milliseconds % 1000 == 0
    then (let seconds = milliseconds / 1000 in
        if seconds == 1 then codes "1 second" else decimal seconds ++ codes " seconds")
    else if milliseconds == 1
    then codes "1 millisecond"
    else decimal milliseconds ++ codes " milliseconds"

abbrev pub says : String → Markup
says s = Markup.span (Inline.text (codes s) ∷ [])

abbrev pub keyword : String → Markup
keyword s = Markup.span (Inline.keyword (codes s) ∷ [])

abbrev pub at : ℕ → Markup
at time = Markup.span (Inline.time time ∷ [])

unfoldable pub render_formula : Formula → Markup
render_formula (Formula.pure value pretty) = render_code (codes pretty)
render_formula (Formula.thunk function true) =
    render_code (codes "not(" ++ codes function ++ codes ")")
render_formula (Formula.thunk function false) = render_code (codes function)
render_formula (Formula.and left right) =
    Markup.join (vec (render_formula left ∷ keyword "and" ∷ render_formula right ∷ []))
render_formula (Formula.or left right) =
    Markup.join (vec (render_formula left ∷ keyword "or" ∷ render_formula right ∷ []))
render_formula (Formula.implies left right) =
    Markup.join
      (vec (keyword "if" ∷ render_formula left ∷ keyword "then" ∷ render_formula right ∷ []))
render_formula (Formula.next formula) =
    Markup.join (vec (keyword "next" ∷ render_formula formula ∷ []))
render_formula (Formula.always formula none) =
    Markup.join (vec (keyword "always" ∷ render_formula formula ∷ []))
render_formula (Formula.always formula (some bound)) = Markup.join (
    vec (
      Markup.span (Inline.text (codes "for " ++ format_bound bound) ∷ [])
      ∷ render_formula formula
      ∷ []))
render_formula (Formula.eventually formula none) =
    Markup.join (vec (keyword "eventually" ∷ render_formula formula ∷ []))
render_formula (Formula.eventually formula (some bound)) = Markup.join (
    vec (
      says "within"
      ∷ Markup.span (Inline.text (format_bound bound) ∷ [])
      ∷ render_formula formula
      ∷ []))

unfoldable pub render_violation_inner : Violation → ℕ → Markup
render_violation_inner (Violation.false_at time condition []) current_time =
    render_code (codes "!(" ++ codes condition ++ codes ")")
render_violation_inner (Violation.false_at time condition (s ∷ snapshots)) current_time =
    render_snapshot_values (s ∷ snapshots) current_time
render_violation_inner (Violation.eventually subformula (EventuallyViolation.timed_out time)) _ =
    Markup.join (vec (render_formula subformula ∷ says "was never true before" ∷ at time ∷ []))
render_violation_inner (Violation.eventually subformula EventuallyViolation.test_ended) _ =
    Markup.join (vec (render_formula subformula ∷ keyword "was never true" ∷ []))
render_violation_inner (Violation.always violation subformula start none time) current_time =
    Markup.join (
      vec (
        says "as of"
        ∷ at start
        ∷ Markup.comma
        ∷ says "it should always be the case that"
        ∷ render_formula subformula
        ∷ Markup.comma
        ∷ says "however"
        ∷ render_violation_inner violation time
        ∷ []))
render_violation_inner (Violation.always violation subformula start (some end) time) current_time =
    Markup.join (
      vec (
        says "as of"
        ∷ at start
        ∷ says "and until"
        ∷ at end
        ∷ Markup.comma
        ∷ says "it should always be the case that"
        ∷ render_formula subformula
        ∷ Markup.comma
        ∷ says "however"
        ∷ render_violation_inner violation time
        ∷ []))
render_violation_inner (Violation.and left right) current_time = Markup.join (
    vec (
      render_violation_inner left current_time
      ∷ keyword "and"
      ∷ render_violation_inner right current_time
      ∷ []))
render_violation_inner (Violation.or left right) current_time = Markup.join (
    vec (
      render_violation_inner left current_time
      ∷ keyword "and"
      ∷ render_violation_inner right current_time
      ∷ []))
render_violation_inner (Violation.implies left right []) current_time = Markup.join (
    vec (
      render_formula left
      ∷ keyword "implies"
      ∷ render_violation_inner right (get_violation_time right)
      ∷ []))
render_violation_inner (Violation.implies left right (s ∷ antecedent_snapshots)) current_time =
    Markup.join (
      vec (
        render_snapshot_values (s ∷ antecedent_snapshots) (get_violation_time right)
        ∷ Markup.comma
        ∷ says "failing the implication because"
        ∷ render_violation_inner right (get_violation_time right)
        ∷ []))

unfoldable pub render_violation : PropertyViolation → Markup
unfolding render_violation_inner get_violation_time
render_violation property =
    render_violation_inner property.violation (get_violation_time property.violation)
