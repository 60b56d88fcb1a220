-- ===== src/Tree/Pick.antt =====
-- `pick` of lib/bombadil/src/tree.rs: a leaf is drawn by the weights.
use bombadil.Common.{
  ℕ, ◌+◌, ◌-◌, ◌%◌, ◌^◌, ◌<◌, false, List, [], ◌∷◌, ◌≡◌, refl, inl, inr, ◌==◌, ==_iff, ltb, ltb→lt,
  lt→ltb, Bool-cases, arith, All, ◌∙◌,
}
use bombadil.Common.Run.{Run, ok, err, out_of_fuel}
use bombadil.Tree.{
  Weight, Tree, Branches, leaf, branch, none_left, weighted, Rng, IsBounded, PickError, total_from,
  pick, pick_from,
}
use bombadil.Tree.Leaves.{leaves, leaves_branches, Reachable, Reachable-left, Reachable-right}

module _ {T : Type 0} where
  unfoldable pub weights : Branches T → ℕ
  weights none_left = 0
  weights (weighted w t bs) = w + weights bs

  unfoldable mutual
    unfolding weights

    -- The weights of each branching sum up within a `u64`.
    pub IsSummable : Tree T → Type 0
    IsSummable (leaf value) = Unit
    IsSummable (branch branches) = (weights branches < 2 ^ 64) × AreSummable branches

    pub AreSummable : Branches T → Type 0
    AreSummable none_left = Unit
    AreSummable (weighted w t bs) = IsSummable t × AreSummable bs

  unfoldable mutual
    unfolding weights

    -- Where a branching is reached, some weight is positive.
    pub IsPickable : Tree T → Type 0
    IsPickable (leaf value) = Unit
    IsPickable (branch branches) = (0 < weights branches) × ArePickable branches

    pub ArePickable : Branches T → Type 0
    ArePickable none_left = Unit
    ArePickable (weighted w t bs) = (0 < w → IsPickable t) × ArePickable bs

  -- The branches `before` come before the others.
  abbrev pub join : Branches T → Branches T → Branches T
  join none_left bs = bs
  join (weighted w t before) bs = weighted w t (join before bs)

  total_from_lem :
      (sum : ℕ) (bs : Branches T) → sum + weights bs < 2 ^ 64 → total_from sum bs ≡ sum + weights bs
  unfolding total_from weights
  total_from_lem sum none_left h = omega arith
  total_from_lem sum (weighted w t bs) h =
      let e : (sum + w) % 2 ^ 64 ≡ sum + w = omega (arith, h) in
      rw e (total_from_lem (sum + w) bs (omega (arith, h)) ∙ omega arith)

  -- A value that is reachable among `found`, or the error for a total of zero where `P` does not
  -- hold.
  abbrev pub Outcome : {S : Type 0} → List (List Weight × T) → Type 0 → Run S PickError T → Type 0
  Outcome found P (ok value _) = Reachable value found
  Outcome found P (err PickError.total_is_zero _) = ¬ P
  Outcome found P (err PickError.no_pick_available _) = ⊥
  Outcome found P out_of_fuel = ⊥

  weaken :
      {S : Type 0} (xs ys : List (List Weight × T)) (P Q : Type 0) (r : Run S PickError T)
      → ((v : T) → Reachable v xs → Reachable v ys)
      → (Q → P)
      → Outcome xs P r
      → Outcome ys Q r
  weaken xs ys P Q (ok v _) h k o = h v o
  weaken xs ys P Q (err PickError.total_is_zero _) h k o = λ q. o (k q)
  weaken xs ys P Q (err PickError.no_pick_available _) h k o = o
  weaken xs ys P Q out_of_fuel h k o = o

module _ {T : Type 0} (rng : Rng) (bounded : IsBounded rng) where
  mutual
    unfolding pick leaves IsSummable IsPickable weights

    pick_lem :
        (t : Tree T) (path : List Weight) (r : rng.State)
        → IsSummable t
        → All (λ w. 0 < w) path
        → Outcome (leaves t path) (IsPickable t) (pick rng t r)
    pick_lem (leaf value) path r s p = inl (refl, p)
    pick_lem (branch branches) path r s p =
        let total = weights branches in
        let e : total_from 0 branches ≡ total =
          total_from_lem 0 branches (omega (arith, s.0)) ∙ omega arith in
        rw e (elim (Bool-cases (total == 0)) [
          | inl z ↦ rw z λ q. absurd (omega (arith, q.0, (==_iff total 0).0 z))
          | inr z ↦
              let positive : 0 < total = ground (arith, z) in
              let drawn = rng.random_range total r in
              rw z (
                weaken _ _ (ArePickable branches) (IsPickable (branch branches))
                  (pick_from rng branches (drawn.0) (drawn.1)) (λ v h. h) (λ q. q.1)
                  (pick_from_lem branches (drawn.0) path (drawn.1) (bounded total r positive) (s.1)
                    p))
        ])

    pick_from_lem :
        (bs : Branches T) (choice : ℕ) (path : List Weight) (r : rng.State)
        → choice < weights bs
        → AreSummable bs
        → All (λ w. 0 < w) path
        → Outcome (leaves_branches bs path) (ArePickable bs) (pick_from rng bs choice r)
    pick_from_lem none_left choice path r c s p = absurd (omega (arith, c))
    pick_from_lem (weighted w t bs) choice path r c s p = elim (Bool-cases (ltb choice w)) [
      | inl e ↦
          let positive : 0 < w = omega (arith, ltb→lt choice w e) in
          rw e (
            weaken (leaves t (w ∷ path)) _ (IsPickable t) _ (pick rng t r)
              (λ v. Reachable-left v _ _) (λ q. q.0 positive)
              (pick_lem t (w ∷ path) r (s.0) (positive, p)))
      | inr e ↦
          let above : ¬ (choice < w) = λ h. absurd (ground (arith, e, h)) in
          rw e (
            weaken (leaves_branches bs path) _ (ArePickable bs) _ (pick_from rng bs (choice - w) r)
              (λ v. Reachable-right v (leaves t (w ∷ path)) _) (λ q. q.1)
              (pick_from_lem bs (choice - w) path r (omega (arith, c, above)) (s.1) p))
    ]

  -- With a source of random numbers that keeps to the range, and weights that sum up within a
  -- `u64` at each branching: picking returns a value at a leaf that only positive weights lead to,
  -- or fails because a total is zero, and then some branching that can be reached has no positive
  -- weight. It never fails for want of a pick.
  pub pick-Outcome :
      (t : Tree T) (r : rng.State)
      → IsSummable t
      → Outcome (leaves t []) (IsPickable t) (pick rng t r)
  pick-Outcome t r s = pick_lem t [] r s tt

module _ {T : Type 0} (rng : Rng) where
  -- Of the choices below the total, exactly as many as its weight lead to a branch: those from the
  -- sum of the weights before it on.
  pub pick_from-window :
      (before : Branches T) (w : Weight) (t : Tree T) (after : Branches T) (c : ℕ) (r : rng.State)
      → c < w
      → pick_from rng (join before (weighted w t after)) (weights before + c) r ≡ pick rng t r
  unfolding pick weights
  pick_from-window none_left w t after c r h = rw (lt→ltb (0 + c) w (omega (arith, h))) refl
  pick_from-window (weighted v u before) w t after c r h =
      let e : ltb (v + weights before + c) v ≡ false = ground arith in
      let d : (v + weights before + c) - v ≡ weights before + c = omega arith in
      rw (e, d) (pick_from-window before w t after c r h)
