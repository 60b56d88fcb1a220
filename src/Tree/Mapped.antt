-- ===== src/Tree/Mapped.antt =====
-- `try_map` of lib/bombadil/src/tree.rs, which visits the leaves in order.
use bombadil.Common.{List, [], ◌∷◌, ◌++◌, ◌≡◌, refl, sym, ◌∙◌, ap}
use bombadil.Common.Run.{Run, ok, err, out_of_fuel, and_then, Comp, return, ◌>>=◌}
use bombadil.Tree.{
  Weight, Tree, Branches, leaf, branch, none_left, weighted, try_map, try_map_branches,
}
use bombadil.Tree.Leaves.{leaves, leaves_branches}

module _ {W E : Type 0} where
  module _ {A B : Type 0} where
    -- One element after the other, up to the first failure.
    abbrev pub traverse : (A → Comp W E B) → List A → Comp W E (List B)
    traverse g [] = return []
    traverse g (x ∷ xs) = g x >>= λ y. traverse g xs >>= λ ys. return (y ∷ ys)

    and_then-cong :
        (r : Run W E A) (f g : A → W → Run W E B)
        → ((a : A) (w : W) → f a w ≡ g a w)
        → and_then r f ≡ and_then r g
    and_then-cong (ok a w) f g h = h a w
    and_then-cong (err _ _) f g h = refl
    and_then-cong out_of_fuel f g h = refl

  and_then_assoc :
      {A B C : Type 0} (r : Run W E A) (f : A → W → Run W E B) (g : B → W → Run W E C)
      → and_then (and_then r f) g ≡ and_then r (λ a w. and_then (f a w) g)
  and_then_assoc (ok a w) f g = refl
  and_then_assoc (err _ _) f g = refl
  and_then_assoc out_of_fuel f g = refl

  append_after :
      {B : Type 0} (y : B) (r : Run W E (List B)) (rest : Comp W E (List B))
      → and_then (and_then r (λ a. rest >>= λ b. return (a ++ b))) (λ zs. return (y ∷ zs))
        ≡ and_then (and_then r (λ a. return (y ∷ a))) (λ a. rest >>= λ b. return (a ++ b))
  append_after y (ok a w) rest = and_then_assoc (rest w) _ _
  append_after y (err _ _) rest = refl
  append_after y out_of_fuel rest = refl

  traverse-append :
      {A B : Type 0} (g : A → Comp W E B) (xs ys : List A) (w : W)
      → traverse g (xs ++ ys) w ≡ (traverse g xs >>= λ a. traverse g ys >>= λ b. return (a ++ b)) w
  traverse-append {A} {B} g [] ys w = identity (traverse g ys w)
    where
      identity : (r : Run W E (List B)) → r ≡ and_then r (λ b w'. ok b w')
      identity (ok b w') = refl
      identity (err _ _) = refl
      identity out_of_fuel = refl
  traverse-append g (x ∷ xs) ys w =
      and_then-cong (g x w) _ _ (λ y w1.
        rw (traverse-append g xs ys w1) (append_after y (traverse g xs w1) (traverse g ys)))
      ∙ sym (and_then_assoc (g x w) _ _)

module _ {T U W E : Type 0} (f : T → Comp W E U) where
  -- `f` at a leaf's value.
  abbrev pub at_leaf : List Weight × T → Comp W E (List Weight × U)
  at_leaf (path, value) = f value >>= λ u. return (path, u)

  mutual
    unfolding leaves try_map

    leaves-try_map_tree :
        (t : Tree T) (path : List Weight) (w : W)
        → (try_map f t >>= λ t'. return (leaves t' path)) w ≡ traverse at_leaf (leaves t path) w
    leaves-try_map_tree (leaf value) path w =
        and_then_assoc (f value w) _ _ ∙ sym (and_then_assoc (f value w) _ _)
    leaves-try_map_tree (branch branches) path w =
        and_then_assoc (try_map_branches f branches w) _ _ ∙ leaves-try_map_branches branches path w

    leaves-try_map_branches :
        (bs : Branches T) (path : List Weight) (w : W)
        → (try_map_branches f bs >>= λ bs'. return (leaves_branches bs' path)) w
          ≡ traverse at_leaf (leaves_branches bs path) w
    leaves-try_map_branches none_left path w = refl
    leaves-try_map_branches (weighted v t bs) path w =
        and_then_assoc (try_map f t w) _ _
        ∙ and_then-cong (try_map f t w) _ _ (λ t' w'.
          and_then_assoc (try_map_branches f bs w') _ _
          ∙ sym (and_then_assoc (try_map_branches f bs w') _ _)
          ∙ ap (λ r. and_then r (λ b. return (leaves t' (v ∷ path) ++ b)))
              (leaves-try_map_branches bs path w'))
        ∙ sym (and_then_assoc (try_map f t w) _ _)
        ∙ ap
            (λ r.
              and_then r (λ a. traverse at_leaf (leaves_branches bs path) >>= λ b. return (a ++ b)))
            (leaves-try_map_tree t (v ∷ path) w)
        ∙ sym (traverse-append at_leaf (leaves t (v ∷ path)) (leaves_branches bs path) w)

  -- Mapping a tree calls `f` on the values of the leaves in order, up to the first failure, and
  -- leaves what it gave at the leaves' places, with the same weights: results, failures and the
  -- closure's state are those of a traversal of the list of leaves.
  pub leaves-try_map :
      (t : Tree T) (path : List Weight) (w : W)
      → (try_map f t >>= λ t'. return (leaves t' path)) w ≡ traverse at_leaf (leaves t path) w
  leaves-try_map = leaves-try_map_tree
