-- ===== src/Tree/Tests.antt =====
-- The theorems of `Tree` at small trees.
use native.Mathlib.Nat.{mod-lt}
use bombadil.Common.{ℕ, ◌+◌, ◌%◌, ◌≡◌, refl, ltb, some, [], arith}
use bombadil.Common.Run.{ok, Comp, return, ◌>>=◌}
use bombadil.Tree.{
  Tree, leaf, branch, none_left, weighted, try_map, filter, prune, pick, pick_from, Rng, IsBounded,
}
use bombadil.Tree.Leaves.{leaves, leaves-filter, satisfying}
use bombadil.Tree.Mapped.{leaves-try_map, traverse, at_leaf}
use bombadil.Tree.Prune.{Prunes, prune-Prunes, IsPruned, prune-IsPruned}
use bombadil.Tree.Pick.{
  IsSummable, IsPickable, Outcome, pick-Outcome, pick_from-window, weights, join,
}
use bombadil.Tree.Choice.{IsPositive, Chooses, pick-prune-filter-Chooses}

abbrev two_left : Tree ℕ
two_left =
    branch (weighted 1 (leaf 1) (weighted 3 (branch (weighted 2 (leaf 2) none_left)) none_left))

abbrev with_empty : Tree ℕ
with_empty = branch (
    weighted 1 (leaf 1) (
      weighted 3 (branch (weighted 2 (leaf 2) (weighted 1 (branch none_left) none_left)))
        (weighted 1 (branch none_left) none_left)))

prunes_empty : prune with_empty ≡ some two_left
unfolding prune
prunes_empty = refl

-- Each number is the state, up to the range.
abbrev counter : Rng
counter = record { State = ℕ; random_range = λ n r. (r % n, r + 1) }

counter-IsBounded : IsBounded counter
counter-IsBounded n r h = mod-lt r h

picks_second : pick counter two_left 3 ≡ ok 2 5
unfolding pick
picks_second = refl

pick-Outcome_example : Outcome (leaves two_left []) (IsPickable two_left) (pick counter two_left 3)
unfolding IsSummable weights
pick-Outcome_example = pick-Outcome counter counter-IsBounded two_left 3 summable
  where
    summable : IsSummable two_left
    summable = omega arith

pick_from-window_example :
    pick_from {T = ℕ} counter
      (join (weighted 1 (leaf 1) none_left) (weighted 3 (leaf 2) none_left))
      (weights {T = ℕ} (weighted 1 (leaf 1) none_left) + 2)
      0
    ≡ pick counter (leaf 2) 0
pick_from-window_example =
    pick_from-window counter (weighted 1 (leaf 1) none_left) 3 (leaf 2) none_left 2 0 (omega arith)

prune-Prunes_example : Prunes with_empty (prune with_empty)
prune-Prunes_example = prune-Prunes with_empty

prune-IsPruned_example : prune two_left ≡ some two_left
unfolding IsPruned
prune-IsPruned_example = prune-IsPruned two_left (omega arith)

leaves-filter_example :
    leaves (filter (ltb 1) with_empty) [] ≡ satisfying (ltb 1) (leaves with_empty [])
leaves-filter_example = leaves-filter (ltb 1) with_empty []

-- Adds to each value how many came before it.
abbrev counted : ℕ → Comp ℕ ℕ ℕ
counted value n = ok (value + n) (n + 1)

leaves-try_map_example :
    (try_map counted with_empty >>= λ t. return (leaves t [])) 5
    ≡ traverse (at_leaf counted) (leaves with_empty []) 5
leaves-try_map_example = leaves-try_map counted with_empty [] 5

pick-prune-filter-Chooses_example :
    Chooses counter (ltb 1) with_empty (prune (filter (ltb 1) with_empty)) 3
unfolding IsPositive IsSummable weights
pick-prune-filter-Chooses_example =
    pick-prune-filter-Chooses counter (ltb 1) counter-IsBounded with_empty 3 (omega arith)
      (omega arith)
