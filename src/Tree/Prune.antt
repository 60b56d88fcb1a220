-- ===== src/Tree/Prune.antt =====
-- `prune` of lib/bombadil/src/tree.rs, which removes what leads to no leaf.
use bombadil.Common.{
  ℕ, ◌<◌, Option, none, some, List, [], ◌∷◌, ◌++◌, ◌≡◌, refl, sym, inl, inr, ◌==◌, ==_iff,
  Bool-cases, arith, ap, ◌∙◌, ap₂,
}
use bombadil.Tree.{
  Weight, Tree, Branches, leaf, branch, none_left, weighted, length, prune_to_size, prune_branches,
  prune,
}
use bombadil.Tree.Leaves.{leaves, leaves_branches}

module _ {T : Type 0} where
  unfoldable mutual
    unfolding length

    -- Every branching has a subtree.
    pub IsPruned : Tree T → Type 0
    IsPruned (leaf value) = Unit
    IsPruned (branch branches) = (0 < length branches) × ArePruned branches

    pub ArePruned : Branches T → Type 0
    ArePruned none_left = Unit
    ArePruned (weighted w t bs) = IsPruned t × ArePruned bs

  -- The tree `t'` of size `n` is what pruning leaves of `t`.
  record Left (t : Tree T) (n : ℕ) (t' : Tree T) : Type 0 where
    same : (path : List Weight) → leaves t' path ≡ leaves t path
    emptied : n ≡ 0 → (path : List Weight) → leaves t path ≡ []
    pruned : 0 < n → IsPruned t'

  no_leaves : (bs : Branches T) (path : List Weight) → length bs ≡ 0 → leaves_branches bs path ≡ []
  unfolding length leaves
  no_leaves none_left path e = refl
  no_leaves (weighted w t bs) path e = absurd (omega (arith, e))

  mutual
    unfolding prune_to_size leaves IsPruned length

    prune_to_size-Left : (t : Tree T) → Left t (prune_to_size t).0 (prune_to_size t).1
    prune_to_size-Left (leaf value) = record {
      same = λ path. refl;
      emptied = λ e. absurd (omega (arith, e));
      pruned = λ _. tt;
    }
    prune_to_size-Left (branch branches) =
        let h = prune_branches_lem branches in
        record {
          same = h.0;
          emptied = λ e path. sym (h.0 path) ∙ no_leaves (prune_branches branches) path e;
          pruned = λ p. (p, h.1);
        }

    prune_branches_lem :
        (bs : Branches T)
        → ((path : List Weight)
            → leaves_branches (prune_branches bs) path ≡ leaves_branches bs path)
          × ArePruned (prune_branches bs)
    prune_branches_lem none_left = ((λ path. refl), tt)
    prune_branches_lem (weighted w t bs) =
        let l = prune_to_size-Left t in
        let rest = prune_branches_lem bs in
        let n = (prune_to_size t).0 in
        elim (Bool-cases (n == 0)) [
          | inl e ↦
              rw e ((λ path. rw (l.emptied ((==_iff n 0).0 e) (w ∷ path)) (rest.0 path)), rest.1)
          | inr e ↦ rw e (
            (λ path. ap₂ ◌++◌ (l.same (w ∷ path)) (rest.0 path)),
            (l.pruned (ground (arith, e)), rest.1),
          )
        ]

  -- What pruning may give: nothing for a tree without leaves, else a pruned tree with its leaves.
  abbrev pub Prunes : Tree T → Option (Tree T) → Type 0
  Prunes t none = (path : List Weight) → leaves t path ≡ []
  Prunes t (some t') = ((path : List Weight) → leaves t' path ≡ leaves t path) × IsPruned t'

  -- Pruning gives nothing where a tree has no leaf; else it gives a tree with the same leaves, in
  -- order and with the same weights on the way, in which every branching has a subtree.
  pub prune-Prunes : (t : Tree T) → Prunes t (prune t)
  unfolding prune
  prune-Prunes t =
      let l = prune_to_size-Left t in
      let n = (prune_to_size t).0 in
      elim (Bool-cases (n == 0)) [
        | inl e ↦ rw e (l.emptied ((==_iff n 0).0 e))
        | inr e ↦ rw e (l.same, l.pruned (ground (arith, e)))
      ]

  mutual
    unfolding prune_to_size IsPruned length

    prune_to_size_again :
        (t : Tree T) → IsPruned t → (0 < (prune_to_size t).0) × ((prune_to_size t).1 ≡ t)
    prune_to_size_again (leaf value) h = (omega arith, refl)
    prune_to_size_again (branch branches) h =
        let e = prune_branches_again branches (h.1) in (rw e (h.0), ap branch e)

    prune_branches_again : (bs : Branches T) → ArePruned bs → prune_branches bs ≡ bs
    prune_branches_again none_left h = refl
    prune_branches_again (weighted w t bs) h =
        let l = prune_to_size_again t (h.0) in
        let rest = prune_branches_again bs (h.1) in
        let n = (prune_to_size t).0 in
        elim (Bool-cases (n == 0)) [
          | inl e ↦ absurd (omega (arith, l.0, (==_iff n 0).0 e))
          | inr e ↦ rw (e, l.1, rest) refl
        ]

  -- A tree in which every branching has a subtree is left as it is.
  pub prune-IsPruned : (t : Tree T) → IsPruned t → prune t ≡ some t
  unfolding prune
  prune-IsPruned t h =
      let l = prune_to_size_again t h in
      let n = (prune_to_size t).0 in
      elim (Bool-cases (n == 0)) [
        | inl e ↦ absurd (omega (arith, l.0, (==_iff n 0).0 e))
        | inr e ↦ rw (e, l.1) refl
      ]
