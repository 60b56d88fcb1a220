-- ===== src/Runner/Progress.antt =====
-- When one turn of `Runner::run_test` of lib/bombadil/src/runner.rs goes on.
use mathlib.Core.Path.{fun_ext}
use bombadil.Common.{
  Bool, true, ◌||◌, ◌⊎◌, inl, inr, Option, none, some, List, [], ◌∷◌, ◌≡◌, refl, sym, ap, ap₂,
  Bool-cases, ◌∙◌,
}
use bombadil.Common.Run.{Run, ok, err, ◌>>=◌, expect}
use bombadil.Tree.{
  Tree, Branches, leaf, branch, none_left, weighted, IsBounded, try_map, filter, filter_branches,
  prune,
}
use bombadil.Tree.Leaves.{leaves, satisfying, Reachable}
use bombadil.Tree.Pick.{IsSummable}
use bombadil.Tree.Choice.{IsPositive, Chooses, pick-prune-filter-Chooses}
use bombadil.Runner.Action.{BrowserAction, is_back, action_timeout}
use bombadil.Runner.Url.{Url, is_within_domain}
use bombadil.Runner.Loop.{
  Setting, ControlFlow, StepResult, StateChanged, Effect, Failure, Turn, convert, stay_within, act,
  on_state_changed, violations_of,
}

-- A filter that keeps everything.
module _ {T : Type 0} (predicate : T → Bool) (keeps : (value : T) → predicate value ≡ true) where
  mutual
    unfolding filter

    filter_all_tree : (t : Tree T) → filter predicate t ≡ t
    filter_all_tree (leaf value) = rw (keeps value) refl
    filter_all_tree (branch branches) = ap branch (filter_all_branches branches)

    filter_all_branches : (bs : Branches T) → filter_branches predicate bs ≡ bs
    filter_all_branches none_left = refl
    filter_all_branches (weighted w t bs) =
        ap₂ (weighted w) (filter_all_tree t) (filter_all_branches bs)

module _ (S : Setting) (origin url : Url S.Host) where
  -- The actions that the runner may pick at a page: all within the origin's site, else only those
  -- that go back.
  abbrev pub is_allowed : BrowserAction S.Point → Bool
  is_allowed action = is_within_domain S.same_host url origin || is_back action

  pub stay_within-filter :
      (tree : Tree (BrowserAction S.Point))
      → stay_within S.same_host origin url tree ≡ filter is_allowed tree
  unfolding stay_within
  stay_within-filter tree = elim (Bool-cases (is_within_domain S.same_host url origin)) [
    | inl e ↦
        let kept : (action : BrowserAction S.Point) → is_allowed action ≡ true =
          λ action. rw e refl in
        (rw e refl) ∙ sym (filter_all_tree is_allowed kept tree)
    | inr e ↦
        let same : (action : BrowserAction S.Point) → is_back action ≡ is_allowed action =
          λ action. rw e refl in
        (rw e refl) ∙ ap (λ p. filter p tree) (fun_ext same)
  ]

module _ {S : Setting} (origin : Url S.Host) (last : Option (BrowserAction S.Point))
    (inputs : StateChanged S) (w : List (Effect S)) where
  -- Everything answers, the test goes on, and the actions convert to `tree`, whose weights are
  -- positive and sum up within a `u64`.
  pub record Responds (snapshots : List S.Snapshot) (result : StepResult S)
      (tree : Tree (BrowserAction S.Point)) : Type 0 where
    pub extracts : inputs.snapshots ≡ some snapshots
    pub verifies : inputs.step_result ≡ some result
    pub converts : (v : List (Effect S)) → try_map convert result.actions v ≡ ok tree v
    pub continues : inputs.control ≡ some ControlFlow.continue
    pub pending : result.has_pending ≡ true
    pub applies : inputs.apply ≡ some tt
    pub positive : IsPositive tree
    pub summable : IsSummable tree

  -- An action is applied that is allowed and stands in the tree, and the test goes on with it.
  pub record Acts (observed : List (Effect S)) (tree : Tree (BrowserAction S.Point))
      (run : Run (List (Effect S)) (Failure S) (Turn S)) : Type 0 where
    pub action : BrowserAction S.Point
    pub goes_on :
        run ≡ ok (Turn.next action) (Effect.apply action (action_timeout S.len action) ∷ observed)
    pub allowed : is_allowed S origin inputs.url action ≡ true
    pub reachable : Reachable action (leaves tree [])

  on_state_changed-prune :
      (snapshots : List S.Snapshot) (result : StepResult S) (tree : Tree (BrowserAction S.Point))
      → Responds snapshots result tree
      → on_state_changed origin last inputs w
        ≡ (expect (prune (filter (is_allowed S origin inputs.url) tree)) Failure.no_actions
              >>= act inputs)
            (Effect.observe inputs.url last snapshots (violations_of result.properties) ∷ w)
  unfolding on_state_changed
  on_state_changed-prune snapshots result tree r = rw (r.extracts) (
      rw (r.verifies) (
        rw (r.converts w) (
          rw (r.continues)
            (rw (r.pending) (rw (stay_within-filter S origin inputs.url tree) refl)))))

  acts :
      (observed : List (Effect S)) (tree : Tree (BrowserAction S.Point))
      (o : Option (Tree (BrowserAction S.Point)))
      → inputs.apply ≡ some tt
      → Chooses S.rng (is_allowed S origin inputs.url) tree o inputs.seed
      → Acts observed tree ((expect o Failure.no_actions >>= act inputs) observed)
        ⊎ (((expect o Failure.no_actions >>= act inputs) observed ≡ err Failure.no_actions observed)
            × (satisfying (is_allowed S origin inputs.url) (leaves tree []) ≡ []))
  unfolding act
  acts observed tree none a h = inr (refl, h)
  acts observed tree (some t) a h = inl (record {
    action = h.value;
    goes_on = rw (h.picks) (rw a refl);
    allowed = h.satisfies;
    reachable = h.reachable;
  })

  -- Where everything answers and the source of random numbers keeps to the range, a turn applies an
  -- action of the tree that is allowed at the page, or fails for want of actions, and then no action
  -- of the tree is allowed.
  pub on_state_changed-Acts :
      (snapshots : List S.Snapshot) (result : StepResult S) (tree : Tree (BrowserAction S.Point))
      → IsBounded S.rng
      → Responds snapshots result tree
      → let observed : List (Effect S) =
          Effect.observe inputs.url last snapshots (violations_of result.properties) ∷ w in
        Acts observed tree (on_state_changed origin last inputs w)
        ⊎ ((on_state_changed origin last inputs w ≡ err Failure.no_actions observed)
            × (satisfying (is_allowed S origin inputs.url) (leaves tree []) ≡ []))
  on_state_changed-Acts snapshots result tree bounded r =
      rw (on_state_changed-prune snapshots result tree r) (
        acts _ tree (prune (filter (is_allowed S origin inputs.url) tree)) (r.applies) (
          pick-prune-filter-Chooses S.rng (is_allowed S origin inputs.url) bounded tree inputs.seed
            (r.positive) (r.summable)))
