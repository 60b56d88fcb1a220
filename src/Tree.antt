-- ===== src/Tree.antt =====
-- lib/bombadil/src/tree.rs: the weighted trees that actions are picked from.
pub mod Leaves
pub mod Mapped
pub mod Prune
pub mod Pick
pub mod Choice
pub mod Every
mod Tests
use bombadil.Common.{
  ℕ, zero, ◌+◌, ◌-◌, ◌<◌, ◌^◌, ◌%◌, Bool, Option, none, some, ◌==◌, ltb, if◌then◌else◌,
  length as len,
}
use bombadil.Common.Run.{Comp, return, fail, ◌>>=◌}

-- A `u16`.
abbrev pub Weight : Type 0
Weight = ℕ

mutual
  pub data Tree (T : Type 0) : Type 0 where
    leaf : T → Tree T
    branch : Branches T → Tree T

  -- `Vec<(Weight, Tree<T>)>`.
  pub data Branches (T : Type 0) : Type 0 where
    none_left : Branches T
    weighted : Weight → Tree T → Branches T → Branches T

module _ {T : Type 0} where
  unfoldable pub length : Branches T → ℕ
  length none_left = 0
  length (weighted w t bs) = length bs + 1

-- The closure `f` may keep a state and may fail.
module _ {T U W E : Type 0} (f : T → Comp W E U) where
  unfoldable mutual
    pub try_map : Tree T → Comp W E (Tree U)
    try_map (leaf value) = f value >>= λ u. return (leaf u)
    try_map (branch branches) = try_map_branches branches >>= λ bs. return (branch bs)

    pub try_map_branches : Branches T → Comp W E (Branches U)
    try_map_branches none_left = return none_left
    try_map_branches (weighted w t bs) =
        try_map t >>= λ t'. try_map_branches bs >>= λ bs'. return (weighted w t' bs')

module _ {T : Type 0} (predicate : T → Bool) where
  unfoldable mutual
    pub filter : Tree T → Tree T
    filter (leaf value) = if predicate value then leaf value else branch none_left
    filter (branch branches) = branch (filter_branches branches)

    pub filter_branches : Branches T → Branches T
    filter_branches none_left = none_left
    filter_branches (weighted w t bs) = weighted w (filter t) (filter_branches bs)

module _ {T : Type 0} where
  -- The method changes the tree in place: here the size comes with the tree that is left.
  unfoldable mutual
    unfolding length

    pub prune_to_size : Tree T → ℕ × Tree T
    prune_to_size (leaf value) = (1, leaf value)
    prune_to_size (branch branches) =
        let left = prune_branches branches in (length left, branch left)

    -- The loop: a subtree of size 0 is removed.
    pub prune_branches : Branches T → Branches T
    prune_branches none_left = none_left
    prune_branches (weighted w t bs) =
        let pruned = prune_to_size t in
        let rest = prune_branches bs in if pruned.0 == 0 then rest else weighted w pruned.1 rest

  unfoldable pub prune : Tree T → Option (Tree T)
  unfolding prune_to_size
  prune tree = let pruned = prune_to_size tree in if pruned.0 == 0 then none else some pruned.1

-- A source of random numbers, of the package `rand`: `random_range n r` is the result of
-- `random_range(0..n)` and the next state.
pub record Rng : Type 1 where
  pub State : Type 0
  pub random_range : ℕ → State → ℕ × State

-- `random_range(0..n)` gives a number of the range, if there is one.
abbrev pub IsBounded : Rng → Type 0
IsBounded rng = (n : ℕ) (r : rng.State) → 0 < n → (rng.random_range n r).0 < n

pub data PickError : Type 0 where
  total_is_zero no_pick_available : PickError

-- The sum of the weights, a `u64`, from what is summed already.
unfoldable pub total_from : {T : Type 0} → ℕ → Branches T → ℕ
total_from sum none_left = sum
total_from sum (weighted w t bs) = total_from ((sum + w) % 2 ^ 64) bs

abbrev pub random_below : (rng : Rng) → ℕ → Comp rng.State PickError ℕ
random_below rng n r = let drawn = rng.random_range n r in return drawn.0 drawn.1

module _ {T : Type 0} (rng : Rng) where
  unfoldable mutual
    unfolding total_from

    pub pick : Tree T → Comp rng.State PickError T
    pick (leaf value) = return value
    pick (branch branches) =
        let total = total_from 0 branches in
        if total == 0
        then fail PickError.total_is_zero
        else random_below rng total >>= λ choice. pick_from branches choice

    -- The loop over the branches.
    pub pick_from : Branches T → ℕ → Comp rng.State PickError T
    pick_from none_left choice = fail PickError.no_pick_available
    pick_from (weighted w t bs) choice = if ltb choice w then pick t else pick_from bs (choice - w)
