-- ===== src/Tree/Leaves.antt =====
-- The leaves of a tree of lib/bombadil/src/tree.rs, each with the weights on the way to it, the
-- nearest first: what the operations on trees are stated by.
use bombadil.Common.{
  ◌<◌, Bool, true, List, [], ◌∷◌, ◌++◌, ◌≡◌, refl, sym, ◌⊎◌, inl, inr, All, Bool-cases,
  if◌then◌else◌, arith,
}
use bombadil.Tree.{
  Weight, Tree, Branches, leaf, branch, none_left, weighted, filter, filter_branches,
}

module _ {T : Type 0} where
  unfoldable mutual
    pub leaves : Tree T → List Weight → List (List Weight × T)
    leaves (leaf value) path = (path, value) ∷ []
    leaves (branch branches) path = leaves_branches branches path

    pub leaves_branches : Branches T → List Weight → List (List Weight × T)
    leaves_branches none_left path = []
    leaves_branches (weighted w t bs) path = leaves t (w ∷ path) ++ leaves_branches bs path

  -- The value stands at a leaf that every weight on the way allows.
  abbrev pub Reachable : T → List (List Weight × T) → Type 0
  Reachable value [] = ⊥
  Reachable value ((path, x) ∷ xs) = ((x ≡ value) × All (λ w. 0 < w) path) ⊎ Reachable value xs

  pub Reachable-left :
      (value : T) (xs ys : List (List Weight × T)) → Reachable value xs → Reachable value (xs ++ ys)
  Reachable-left value [] ys h = elim h [ ]
  Reachable-left value ((path, x) ∷ xs) ys (inl h) = inl h
  Reachable-left value ((path, x) ∷ xs) ys (inr h) = inr (Reachable-left value xs ys h)

  pub Reachable-right :
      (value : T) (xs ys : List (List Weight × T)) → Reachable value ys → Reachable value (xs ++ ys)
  Reachable-right value [] ys h = h
  Reachable-right value ((path, x) ∷ xs) ys h = inr (Reachable-right value xs ys h)

module _ {T : Type 0} (predicate : T → Bool) where
  -- The leaves whose values satisfy the predicate, in order.
  abbrev pub satisfying : List (List Weight × T) → List (List Weight × T)
  satisfying [] = []
  satisfying ((path, x) ∷ xs) =
      let rest = satisfying xs in if predicate x then (path, x) ∷ rest else rest

  satisfying-append :
      (xs ys : List (List Weight × T)) → satisfying (xs ++ ys) ≡ satisfying xs ++ satisfying ys
  satisfying-append [] ys = refl
  satisfying-append ((path, x) ∷ xs) ys = ground (arith, satisfying-append xs ys)

  mutual
    unfolding leaves filter

    leaves-filter_tree :
        (t : Tree T) (path : List Weight)
        → leaves (filter predicate t) path ≡ satisfying (leaves t path)
    leaves-filter_tree (leaf value) path = ground arith
    leaves-filter_tree (branch branches) path = leaves-filter_branches branches path

    leaves-filter_branches :
        (bs : Branches T) (path : List Weight)
        → leaves_branches (filter_branches predicate bs) path ≡ satisfying (leaves_branches bs path)
    leaves-filter_branches none_left path = refl
    leaves-filter_branches (weighted w t bs) path =
        rw
          (
            satisfying-append (leaves t (w ∷ path)) (leaves_branches bs path),
            leaves-filter_tree t (w ∷ path),
            leaves-filter_branches bs path,
          )
          refl

  -- A filtered tree has the leaves whose values satisfy the predicate, in order and with the same
  -- weights, and no other.
  pub leaves-filter :
      (t : Tree T) (path : List Weight)
      → leaves (filter predicate t) path ≡ satisfying (leaves t path)
  leaves-filter = leaves-filter_tree

  -- What is reachable among the leaves that satisfy the predicate satisfies it, and was reachable.
  pub Reachable-satisfying :
      (value : T) (xs : List (List Weight × T))
      → Reachable value (satisfying xs)
      → (predicate value ≡ true) × Reachable value xs
  Reachable-satisfying value [] h = elim h [ ]
  Reachable-satisfying value ((path, x) ∷ xs) h =
      let rest = Reachable-satisfying value xs in
      let tail : Reachable value (satisfying xs)
          → (predicate value ≡ true) × Reachable value ((path, x) ∷ xs) =
        λ g. ((rest g).0, inr ((rest g).1)) in
      elim (Bool-cases (predicate x)) [ inl e ↦ kept tail e (rw e at h) | inr e ↦ tail (rw e at h) ]
    where
      kept :
          (Reachable value (satisfying xs)
            → (predicate value ≡ true) × Reachable value ((path, x) ∷ xs))
          → predicate x ≡ true
          → ((x ≡ value) × All (λ w. 0 < w) path) ⊎ Reachable value (satisfying xs)
          → (predicate value ≡ true) × Reachable value ((path, x) ∷ xs)
      kept tail e (inl g) = (rw (sym g.0) e, inl g)
      kept tail e (inr g) = tail g
