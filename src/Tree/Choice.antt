-- ===== src/Tree/Choice.antt =====
-- How the operations of lib/bombadil/src/tree.rs work together: filtering, pruning and picking.
use bombadil.Common.{
  ℕ, ◌≤◌, ◌<◌, Bool, true, Option, none, some, List, [], ◌≡◌, refl, sym, inl, inr, ◌==◌, Bool-cases,
  arith, ◌∙◌,
}
use bombadil.Common.Run.{Run, ok, err, out_of_fuel}
use bombadil.Tree.{
  Tree, Branches, leaf, branch, none_left, weighted, Rng, IsBounded, PickError, filter,
  filter_branches, prune, prune_to_size, prune_branches, pick, length,
}
use bombadil.Tree.Leaves.{leaves, Reachable, leaves-filter, satisfying, Reachable-satisfying}
use bombadil.Tree.Prune.{IsPruned, ArePruned, Prunes, prune-Prunes}
use bombadil.Tree.Pick.{
  weights, IsSummable, AreSummable, IsPickable, ArePickable, Outcome, pick-Outcome,
}

module _ {T : Type 0} where
  unfoldable mutual
    -- Every weight is positive.
    pub IsPositive : Tree T → Type 0
    IsPositive (leaf value) = Unit
    IsPositive (branch branches) = ArePositive branches

    pub ArePositive : Branches T → Type 0
    ArePositive none_left = Unit
    ArePositive (weighted w t bs) = (0 < w) × IsPositive t × ArePositive bs

  positive_weights : (bs : Branches T) → ArePositive bs → 0 < length bs → 0 < weights bs
  unfolding IsPositive length weights
  positive_weights none_left p l = absurd (omega (arith, l))
  positive_weights (weighted w t bs) p l = omega (arith, p.0)

  mutual
    unfolding IsPositive IsPruned IsPickable

    positive-IsPickable : (t : Tree T) → IsPositive t → IsPruned t → IsPickable t
    positive-IsPickable (leaf value) p h = tt
    positive-IsPickable (branch branches) p h =
        (positive_weights branches p (h.0), positive-ArePickable branches p (h.1))

    positive-ArePickable : (bs : Branches T) → ArePositive bs → ArePruned bs → ArePickable bs
    positive-ArePickable none_left p h = tt
    positive-ArePickable (weighted w t bs) p h =
        ((λ _. positive-IsPickable t (p.1) (h.0)), positive-ArePickable bs (p.2) (h.1))

  -- What filtering and pruning keep: positive weights, and sums within a `u64`.
  module _ (predicate : T → Bool) where
    mutual
      unfolding filter IsPositive IsSummable weights

      filter-IsPositive : (t : Tree T) → IsPositive t → IsPositive (filter predicate t)
      filter-IsPositive (leaf value) p = ground arith
      filter-IsPositive (branch branches) p = filter-ArePositive branches p

      filter-ArePositive :
          (bs : Branches T) → ArePositive bs → ArePositive (filter_branches predicate bs)
      filter-ArePositive none_left p = tt
      filter-ArePositive (weighted w t bs) p =
          (p.0, filter-IsPositive t (p.1), filter-ArePositive bs (p.2))

      filter-IsSummable : (t : Tree T) → IsSummable t → IsSummable (filter predicate t)
      filter-IsSummable (leaf value) p = ground arith
      filter-IsSummable (branch branches) p =
          let h = filter-AreSummable branches (p.1) in (rw (h.0) (p.0), h.1)

      filter-AreSummable :
          (bs : Branches T)
          → AreSummable bs
          → (weights (filter_branches predicate bs) ≡ weights bs)
            × AreSummable (filter_branches predicate bs)
      filter-AreSummable none_left p = (refl, tt)
      filter-AreSummable (weighted w t bs) p =
          let h = filter-AreSummable bs (p.1) in
          (omega (arith, h.0), (filter-IsSummable t (p.0), h.1))

  mutual
    unfolding prune_to_size IsPositive IsSummable weights

    prune_to_size-IsPositive : (t : Tree T) → IsPositive t → IsPositive (prune_to_size t).1
    prune_to_size-IsPositive (leaf value) p = tt
    prune_to_size-IsPositive (branch branches) p = prune_branches-ArePositive branches p

    prune_branches-ArePositive :
        (bs : Branches T) → ArePositive bs → ArePositive (prune_branches bs)
    prune_branches-ArePositive none_left p = tt
    prune_branches-ArePositive (weighted w t bs) p =
        let rest = prune_branches-ArePositive bs (p.2) in
        elim (Bool-cases ((prune_to_size t).0 == 0)) [
          | inl e ↦ rw e rest
          | inr e ↦ rw e (p.0, prune_to_size-IsPositive t (p.1), rest)
        ]

    prune_to_size-IsSummable : (t : Tree T) → IsSummable t → IsSummable (prune_to_size t).1
    prune_to_size-IsSummable (leaf value) p = tt
    prune_to_size-IsSummable (branch branches) p =
        let h = prune_branches-AreSummable branches (p.1) in (omega (arith, h.0, p.0), h.1)

    prune_branches-AreSummable :
        (bs : Branches T)
        → AreSummable bs
        → (weights (prune_branches bs) ≤ weights bs) × AreSummable (prune_branches bs)
    prune_branches-AreSummable none_left p = (omega arith, tt)
    prune_branches-AreSummable (weighted w t bs) p =
        let h = prune_branches-AreSummable bs (p.1) in
        elim (Bool-cases ((prune_to_size t).0 == 0)) [
          | inl e ↦ rw e (omega (arith, h.0), h.1)
          | inr e ↦ rw e (omega (arith, h.0), (prune_to_size-IsSummable t (p.0), h.1))
        ]

  abbrev Keeps : Tree T → Option (Tree T) → Type 0
  Keeps t none = Unit
  Keeps t (some t') = (IsPositive t → IsPositive t') × (IsSummable t → IsSummable t')

  prune-Keeps : (t : Tree T) → Keeps t (prune t)
  unfolding prune
  prune-Keeps t = elim (Bool-cases ((prune_to_size t).0 == 0)) [
    | inl e ↦ rw e tt
    | inr e ↦ rw e (prune_to_size-IsPositive t, prune_to_size-IsSummable t)
  ]

module _ {T : Type 0} (rng : Rng) (predicate : T → Bool) where
  -- The value is what `pick` returns for the tree, satisfies the predicate, and is reachable among
  -- the leaves.
  pub record Chosen (found : List (List ℕ × T)) (t : Tree T) (r : rng.State) : Type 0 where
    pub value : T
    pub state : rng.State
    pub picks : pick rng t r ≡ ok value state
    pub satisfies : predicate value ≡ true
    pub reachable : Reachable value found

  abbrev pub Chooses : Tree T → Option (Tree T) → rng.State → Type 0
  Chooses t none r = satisfying predicate (leaves t []) ≡ []
  Chooses t (some t') r = Chosen (leaves t []) t' r

  picked :
      (found : List (List ℕ × T)) (t : Tree T) (r : rng.State)
      → leaves t [] ≡ satisfying predicate found
      → IsPickable t
      → (run : Run rng.State PickError T) → pick rng t r ≡ run
      → Outcome (leaves t []) (IsPickable t) run
      → Chosen found t r
  picked found t r l p (ok v r') e o =
      let h = Reachable-satisfying predicate v found (rw l at o) in
      record { value = v; state = r'; picks = e; satisfies = h.0; reachable = h.1 }
  picked found t r l p (err PickError.total_is_zero _) e o = absurd (o p)
  picked found t r l p (err PickError.no_pick_available _) e o = elim o [ ]
  picked found t r l p out_of_fuel e o = elim o [ ]

  module _ (bounded : IsBounded rng) where
    -- A tree with positive weights that sum up within a `u64` is filtered and pruned, and a value is
    -- picked, with a source of random numbers that keeps to the range. If nothing is left, no leaf
    -- satisfied the predicate. Else the pick succeeds, and its value satisfies the predicate and
    -- stands at a leaf of the tree.
    pub pick-prune-filter-Chooses :
        (t : Tree T) (r : rng.State)
        → IsPositive t
        → IsSummable t
        → Chooses t (prune (filter predicate t)) r
    pick-prune-filter-Chooses t r p s =
        chosen (prune (filter predicate t)) (prune-Prunes (filter predicate t))
          (prune-Keeps (filter predicate t))
      where
        chosen :
            (o : Option (Tree T))
            → Prunes (filter predicate t) o
            → Keeps (filter predicate t) o
            → Chooses t o r
        chosen none h k = sym (leaves-filter predicate t []) ∙ h []
        chosen (some t') h k =
            picked (leaves t []) t' r (h.0 [] ∙ leaves-filter predicate t [])
              (positive-IsPickable t' (k.0 (filter-IsPositive predicate t p)) (h.1)) (pick rng t' r)
              refl (pick-Outcome rng bounded t' r (k.1 (filter-IsSummable predicate t s)))
