-- ===== src/Ltl/Semantics/Attach.antt =====
-- `attach_state` of lib/bombadil-ltl/src/eval.rs changes no verdict.
use bombadil.Common.{ℕ, Bool, ◌≡◌, refl, ◌∙◌, inl, inr, suc, arith, Bool-cases}
use bombadil.Ltl.Domain.{Domain}
use bombadil.Ltl.Value.{Value, Residual}
use bombadil.Ltl.Attach.{attach_state, attach_to_residual, attach_to_value}
use bombadil.Ltl.Semantics.{Meaning, value_holds, residual_holds, ValueFits, ResidualFits}
use bombadil.Ltl.Semantics.Says.{Says}

module _ {D : Domain} (meaning : Meaning D) (fuel : ℕ) where
  attach_to_residual-holds :
      (r : Residual D) (state : D.State) (i n : ℕ)
      → residual_holds meaning fuel (attach_to_residual r state) i n
        ≡ residual_holds meaning fuel r i n
  unfolding attach_to_residual residual_holds
  attach_to_residual-holds (Residual.true_with _) state i n = refl
  attach_to_residual-holds (Residual.false_with _) state i n = refl
  attach_to_residual-holds (Residual.derived _ _) state i n = refl
  attach_to_residual-holds (Residual.and l r) state i n =
      cc (attach_to_residual-holds l state i n, attach_to_residual-holds r state i n)
  attach_to_residual-holds (Residual.or l r) state i n =
      cc (attach_to_residual-holds l state i n, attach_to_residual-holds r state i n)
  attach_to_residual-holds (Residual.implies _ l r) state i n =
      cc (attach_to_residual-holds l state i n, attach_to_residual-holds r state i n)
  attach_to_residual-holds (Residual.or_eventually _ _ _ l r) state i n =
      cc (attach_to_residual-holds l state i n, attach_to_residual-holds r state i n)
  attach_to_residual-holds (Residual.and_always _ _ _ _ l r) state i n =
      cc (attach_to_residual-holds l state i n, attach_to_residual-holds r state i n)

  attach_to_residual-ResidualFits :
      (r : Residual D) (state : D.State)
      → ResidualFits meaning fuel r
      → ResidualFits meaning fuel (attach_to_residual r state)
  unfolding attach_to_residual
  attach_to_residual-ResidualFits (Residual.true_with _) state h = h
  attach_to_residual-ResidualFits (Residual.false_with _) state h = h
  attach_to_residual-ResidualFits (Residual.derived _ _) state h = h
  attach_to_residual-ResidualFits (Residual.and l r) state h =
      (attach_to_residual-ResidualFits l state h.0, attach_to_residual-ResidualFits r state h.1)
  attach_to_residual-ResidualFits (Residual.or l r) state h =
      (attach_to_residual-ResidualFits l state h.0, attach_to_residual-ResidualFits r state h.1)
  attach_to_residual-ResidualFits (Residual.implies _ l r) state h =
      (attach_to_residual-ResidualFits l state h.0, attach_to_residual-ResidualFits r state h.1)
  attach_to_residual-ResidualFits (Residual.or_eventually _ _ _ l r) state h = (
    h.0,
    attach_to_residual-ResidualFits l state h.1,
    attach_to_residual-ResidualFits r state h.2,
  )
  attach_to_residual-ResidualFits (Residual.and_always _ _ _ _ l r) state h = (
    h.0,
    h.1,
    attach_to_residual-ResidualFits l state h.2,
    attach_to_residual-ResidualFits r state h.3,
  )

  attach_state-holds :
      (v : Value D) (state : D.State) (i n : ℕ)
      → value_holds meaning fuel (attach_state v state) i n ≡ value_holds meaning fuel v i n
  unfolding attach_state value_holds
  attach_state-holds (Value.true_with _) state i n = ground arith
  attach_state-holds (Value.false_with _ _) state i n = ground arith
  attach_state-holds (Value.residual r) state i n =
      ground (arith, attach_to_residual-holds r state i n)

  attach_state-ValueFits :
      (v : Value D) (state : D.State)
      → ValueFits meaning fuel v
      → ValueFits meaning fuel (attach_state v state)
  unfolding attach_state
  attach_state-ValueFits v state h = elim (Bool-cases (D.is_empty state)) [
    | inl e ↦ rw e h
    | inr e ↦ rw e (matched v h)
  ]
    where
      matched :
          (u : Value D)
          → ValueFits meaning fuel u
          → ValueFits meaning fuel (attach_to_value u state)
      matched (Value.true_with _) hu = tt
      matched (Value.false_with _ _) hu = hu
      matched (Value.residual r) hu = attach_to_residual-ResidualFits r state hu

  pub attach_state-Says :
      (v : Value D) (state : D.State) (i : ℕ) (p : ℕ → Bool)
      → Says meaning fuel v i p
      → Says meaning fuel (attach_state v state) i p
  attach_state-Says v state i p h =
      (attach_state-ValueFits v state h.0, λ n. attach_state-holds v state (suc i) n ∙ h.1 n)
