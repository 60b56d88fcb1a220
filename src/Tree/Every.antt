-- ===== src/Tree/Every.antt =====
-- What holds at every leaf of a tree of lib/bombadil/src/tree.rs, for trees of any weights.
use bombadil.Common.{ℕ, ◌-◌, Bool, true, Option, none, some, ◌≡◌, ◌==◌, ltb, inl, inr, Bool-cases}
use bombadil.Common.Run.{Comp, Ends, Ends-if, Ends-bind}
use bombadil.Tree.{
  Tree, Branches, leaf, branch, none_left, weighted, Rng, filter, filter_branches, prune,
  prune_to_size, prune_branches, pick, pick_from, try_map, try_map_branches, total_from,
}

module _ {T : Type 0} (P : T → Type 0) where
  unfoldable mutual
    pub Every : Tree T → Type 0
    Every (leaf value) = P value
    Every (branch branches) = EveryBranch branches

    pub EveryBranch : Branches T → Type 0
    EveryBranch none_left = Unit
    EveryBranch (weighted w t bs) = Every t × EveryBranch bs

  mutual
    unfolding Every prune_to_size

    prune_to_size-Every : (t : Tree T) → Every t → Every (prune_to_size t).1
    prune_to_size-Every (leaf value) h = h
    prune_to_size-Every (branch branches) h = prune_branches-EveryBranch branches h

    prune_branches-EveryBranch :
        (bs : Branches T) → EveryBranch bs → EveryBranch (prune_branches bs)
    prune_branches-EveryBranch none_left h = tt
    prune_branches-EveryBranch (weighted w t bs) h = elim (Bool-cases ((prune_to_size t).0 == 0)) [
      | inl e ↦ rw e (prune_branches-EveryBranch bs (h.1))
      | inr e ↦ rw e (prune_to_size-Every t (h.0), prune_branches-EveryBranch bs (h.1))
    ]

  abbrev pub EverySome : Option (Tree T) → Type 0
  EverySome none = Unit
  EverySome (some t) = Every t

  pub prune-Every : (t : Tree T) → Every t → EverySome (prune t)
  unfolding prune
  prune-Every t h = elim (Bool-cases ((prune_to_size t).0 == 0)) [
    | inl e ↦ rw e tt
    | inr e ↦ rw e (prune_to_size-Every t h)
  ]

  module _ (rng : Rng) where
    abbrev PicksOrFails : T → rng.State → Type 0
    PicksOrFails value _ = P value

    mutual
      unfolding Every pick

      pick-Every_tree :
          (t : Tree T) (r : rng.State) → Every t → Ends PicksOrFails (λ _. Unit) (pick rng t r)
      pick-Every_tree (leaf value) r h = h
      pick-Every_tree (branch branches) r h =
          let total = total_from 0 branches in
          Ends-if PicksOrFails (λ _. Unit) (total == 0) _ _ r (λ _. tt)
            (λ _. pick_from-EveryBranch branches _ _ h)

      pick_from-EveryBranch :
          (bs : Branches T) (choice : ℕ) (r : rng.State)
          → EveryBranch bs
          → Ends PicksOrFails (λ _. Unit) (pick_from rng bs choice r)
      pick_from-EveryBranch none_left choice r h = tt
      pick_from-EveryBranch (weighted w t bs) choice r h =
          Ends-if PicksOrFails (λ _. Unit) (ltb choice w) _ _ r (λ _. pick-Every_tree t r (h.0))
            (λ _. pick_from-EveryBranch bs (choice - w) r (h.1))

    pub pick-Every :
        (t : Tree T) (r : rng.State) → Every t → Ends PicksOrFails (λ _. Unit) (pick rng t r)
    pick-Every = pick-Every_tree

module _ {T : Type 0} (P Q : T → Type 0) (implies : (value : T) → P value → Q value) where
  mutual
    unfolding Every

    Every-map_tree : (t : Tree T) → Every P t → Every Q t
    Every-map_tree (leaf value) h = implies value h
    Every-map_tree (branch branches) h = EveryBranch-map branches h

    EveryBranch-map : (bs : Branches T) → EveryBranch P bs → EveryBranch Q bs
    EveryBranch-map none_left h = tt
    EveryBranch-map (weighted w t bs) h = (Every-map_tree t (h.0), EveryBranch-map bs (h.1))

  pub Every-map : (t : Tree T) → Every P t → Every Q t
  Every-map = Every-map_tree

module _ {T : Type 0} (P : T → Type 0) (all : (value : T) → P value) where
  mutual
    unfolding Every

    Every-all_tree : (t : Tree T) → Every P t
    Every-all_tree (leaf value) = all value
    Every-all_tree (branch branches) = EveryBranch-all branches

    EveryBranch-all : (bs : Branches T) → EveryBranch P bs
    EveryBranch-all none_left = tt
    EveryBranch-all (weighted w t bs) = (Every-all_tree t, EveryBranch-all bs)

  pub Every-all : (t : Tree T) → Every P t
  Every-all = Every-all_tree

module _ {T : Type 0} (predicate : T → Bool) where
  abbrev pub Satisfies : T → Type 0
  Satisfies value = predicate value ≡ true

  mutual
    unfolding Every filter

    filter-Every_tree : (t : Tree T) → Every Satisfies (filter predicate t)
    filter-Every_tree (leaf value) = elim (Bool-cases (predicate value)) [
      | inl e ↦ rw e e
      | inr e ↦ rw e tt
    ]
    filter-Every_tree (branch branches) = filter-EveryBranch branches

    filter-EveryBranch : (bs : Branches T) → EveryBranch Satisfies (filter_branches predicate bs)
    filter-EveryBranch none_left = tt
    filter-EveryBranch (weighted w t bs) = (filter-Every_tree t, filter-EveryBranch bs)

  pub filter-Every : (t : Tree T) → Every Satisfies (filter predicate t)
  filter-Every = filter-Every_tree

module _ {T U W E : Type 0} (f : T → Comp W E U) (P : U → Type 0) (Q : W → Type 0) where
  -- The closure gives values that satisfy `P`, and keeps `Q`.
  abbrev pub Gives : Type 0
  Gives = (value : T) (w : W) → Q w → Ends (λ u w'. P u × Q w') Q (f value w)

  mutual
    unfolding Every try_map

    try_map-Every_tree :
        (gives : Gives) (t : Tree T) (w : W)
        → Q w
        → Ends (λ t' w'. Every P t' × Q w') Q (try_map f t w)
    try_map-Every_tree gives (leaf value) w h =
        Ends-bind (λ u w'. P u × Q w') _ Q (f value) _ w (gives value w h) (λ u w' k. k)
    try_map-Every_tree gives (branch branches) w h =
        Ends-bind (λ bs w'. EveryBranch P bs × Q w') _ Q (try_map_branches f branches) _ w
          (try_map_branches-Every gives branches w h) (λ bs w' k. k)

    try_map_branches-Every :
        (gives : Gives) (bs : Branches T) (w : W)
        → Q w
        → Ends (λ bs' w'. EveryBranch P bs' × Q w') Q (try_map_branches f bs w)
    try_map_branches-Every gives none_left w h = (tt, h)
    try_map_branches-Every gives (weighted v t bs) w h =
        Ends-bind (λ t' w'. Every P t' × Q w') _ Q (try_map f t) _ w
          (try_map-Every_tree gives t w h)
          λ t' w' k.
            Ends-bind (λ bs' w''. EveryBranch P bs' × Q w'') _ Q (try_map_branches f bs) _ w'
              (try_map_branches-Every gives bs w' (k.1)) (λ bs' w'' l. ((k.0, l.0), l.1))

  pub try_map-Every :
      Gives → (t : Tree T) (w : W) → Q w → Ends (λ t' w'. Every P t' × Q w') Q (try_map f t w)
  try_map-Every = try_map-Every_tree
