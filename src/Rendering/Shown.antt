-- ===== src/Rendering/Shown.antt =====
-- Which snapshots the rendering of lib/bombadil-schema/src/markup.rs shows.
use mathlib.Core.List.{
  reverse, reverse-cons, Perm, perm_middle, perm_append_comm, append-nil, append_assoc,
}
use mathlib.Core.List.Perm
use bombadil.Common.{
  ℕ, List, [], ◌∷◌, ◌++◌, map, ◌≡◌, refl, sym, ap, ◌∙◌, inl, inr, ltb, ◌==◌, Bool-cases,
}
use bombadil.Schema.Types.{Snapshot, Violation}
use bombadil.Rendering.Markup.{SnapshotMarkup, Markup, Markups, vec}
use bombadil.Rendering.Violations.{
  snapshot_name, render_snapshot_items, at_time, not_at_time, push_at, push_all, render_current,
  separated, render_groups, render_snapshot_values,
}

-- The snapshots in a piece of markup, in the order in which they are shown.
unfoldable mutual
  pub shown : Markup → List SnapshotMarkup
  shown (Markup.snapshots items) = items
  shown (Markup.stack items) = shown_all items
  shown (Markup.join items) = shown_all items
  shown _ = []

  pub shown_all : Markups → List SnapshotMarkup
  shown_all Markups.nil = []
  shown_all (Markups.cons m ms) = shown m ++ shown_all ms

-- The snapshots that a violation carries, each as often as its parts name it.
unfoldable pub carried : Violation → List Snapshot
carried (Violation.false_at time condition snapshots) = snapshots
carried (Violation.eventually subformula reason) = []
carried (Violation.always violation subformula start end time) = carried violation
carried (Violation.and left right) = carried left ++ carried right
carried (Violation.or left right) = carried left ++ carried right
carried (Violation.implies left right antecedent_snapshots) = antecedent_snapshots ++ carried right

abbrev in_groups : List (ℕ × List Snapshot) → List Snapshot
in_groups [] = []
in_groups ((time, group) ∷ groups) = group ++ in_groups groups

partition-Perm :
    (time : ℕ) (snapshots : List Snapshot)
    → Perm (at_time time snapshots ++ not_at_time time snapshots) snapshots
unfolding at_time not_at_time
partition-Perm time [] = Perm.nil
partition-Perm time (s ∷ snapshots) = elim (Bool-cases (s.time == time)) [
  | inl e ↦ rw e (Perm.cons s (partition-Perm time snapshots))
  | inr e ↦ rw e (
      Perm.trans (perm_middle (at_time time snapshots) (not_at_time time snapshots))
        (Perm.cons s (partition-Perm time snapshots)))
]

push_at-Perm :
    (s : Snapshot) (groups : List (ℕ × List Snapshot))
    → Perm (in_groups (push_at s groups)) (s ∷ in_groups groups)
unfolding push_at
push_at-Perm s [] = Perm.rfl
push_at-Perm s ((time, group) ∷ groups) = elim (Bool-cases (s.time == time)) [
  | inl e ↦
      rw (e, append_assoc group (s ∷ []) (in_groups groups)) (perm_middle group (in_groups groups))
  | inr e ↦ rw e (elim (Bool-cases (ltb s.time time)) [
    | inl b ↦ rw b Perm.rfl
    | inr b ↦ rw b (
        Perm.trans (Perm.append_left group (push_at-Perm s groups))
          (perm_middle group (in_groups groups)))
  ])
]

push_all-Perm :
    (other : List Snapshot) (groups : List (ℕ × List Snapshot))
    → Perm (in_groups (push_all other groups)) (other ++ in_groups groups)
unfolding push_all
push_all-Perm [] groups = Perm.rfl
push_all-Perm (s ∷ other) groups = Perm.trans (push_all-Perm other (push_at s groups)) (
    Perm.trans (Perm.append_left other (push_at-Perm s groups))
      (perm_middle other (in_groups groups)))

shown_all-append :
    (ms ns : List Markup) → shown_all (vec (ms ++ ns)) ≡ shown_all (vec ms) ++ shown_all (vec ns)
unfolding shown
shown_all-append [] ns = refl
shown_all-append (m ∷ ms) ns =
    ap (λ rest. shown m ++ rest) (shown_all-append ms ns)
    ∙ sym (append_assoc (shown m) (shown_all (vec ms)) (shown_all (vec ns)))

abbrev pub rendered : Snapshot → SnapshotMarkup
rendered s = record { name = snapshot_name s; value = s.value }

items-append :
    (xs ys : List Snapshot)
    → render_snapshot_items (xs ++ ys) ≡ render_snapshot_items xs ++ render_snapshot_items ys
unfolding render_snapshot_items
items-append [] ys = refl
items-append (s ∷ xs) ys = ap (λ rest. rendered s ∷ rest) (items-append xs ys)

items-map : (xs : List Snapshot) → render_snapshot_items xs ≡ map rendered xs
unfolding render_snapshot_items
items-map [] = refl
items-map (s ∷ xs) = ap (λ rest. rendered s ∷ rest) (items-map xs)

in_groups-append :
    (groups others : List (ℕ × List Snapshot))
    → in_groups (groups ++ others) ≡ in_groups groups ++ in_groups others
in_groups-append [] others = refl
in_groups-append ((time, group) ∷ groups) others =
    ap (λ rest. group ++ rest) (in_groups-append groups others)
    ∙ sym (append_assoc group (in_groups groups) (in_groups others))

reverse-Perm :
    (groups : List (ℕ × List Snapshot)) → Perm (in_groups (reverse groups)) (in_groups groups)
reverse-Perm [] = Perm.rfl
reverse-Perm ((time, group) ∷ groups) =
    rw
      (
        reverse-cons (time, group) groups,
        in_groups-append (reverse groups) ((time, group) ∷ []),
        append-nil group,
      )
      (Perm.trans (perm_append_comm (in_groups (reverse groups)) group)
        (Perm.append_left group (reverse-Perm groups)))

shown-separated :
    (result : List Markup) → shown_all (vec (separated result)) ≡ shown_all (vec result)
unfolding shown
shown-separated [] = refl
shown-separated (m ∷ result) = shown_all-append (m ∷ result) _ ∙ append-nil _

shown-render_groups :
    (groups : List (ℕ × List Snapshot)) (result : List Markup)
    → shown_all (vec (render_groups groups result))
      ≡ shown_all (vec result) ++ render_snapshot_items (in_groups groups)
unfolding render_groups shown
shown-render_groups [] result = unfold render_snapshot_items in sym (append-nil _)
shown-render_groups ((time, group) ∷ groups) result =
    rw
      (
        shown-render_groups groups _,
        shown_all-append (separated result) _,
        shown-separated result,
        append-nil (render_snapshot_items group),
        append_assoc (shown_all (vec result)) (render_snapshot_items group) _,
        items-append group (in_groups groups),
      )
      refl

shown-render_current :
    (time : ℕ) (current : List Snapshot)
    → shown_all (vec (render_current time current)) ≡ render_snapshot_items current
unfolding render_current shown
shown-render_current time [] = unfold render_snapshot_items in refl
shown-render_current time (s ∷ current) = append-nil _

-- The snapshots at a time and the groups of the others are the snapshots, in some order.
grouped-Perm :
    (snapshots : List Snapshot) (time : ℕ)
    → Perm
        (at_time time snapshots ++ in_groups (push_all (not_at_time time snapshots) []))
        snapshots
grouped-Perm snapshots time =
    let others = not_at_time time snapshots in
    let all : Perm (in_groups (push_all others [])) others =
      rw append-nil at (push_all-Perm others []) in
    Perm.trans (Perm.append_left (at_time time snapshots) all) (partition-Perm time snapshots)

-- The values of snapshots are shown each once, at the time of the report and before it.
pub shown-render_snapshot_values :
    (snapshots : List Snapshot) (time : ℕ)
    → Perm (shown (render_snapshot_values snapshots time)) (map rendered snapshots)
unfolding render_snapshot_values shown
shown-render_snapshot_values snapshots time =
    let current = at_time time snapshots in
    let by_time = push_all (not_at_time time snapshots) [] in
    let ordered = Perm.append_left current (reverse-Perm by_time) in
    rw
      (
        shown-render_groups (reverse by_time) (render_current time current),
        shown-render_current time current,
        ← items-append current (in_groups (reverse by_time)),
        items-map (current ++ in_groups (reverse by_time)),
      )
      (Perm.map rendered (Perm.trans ordered (grouped-Perm snapshots time)))
