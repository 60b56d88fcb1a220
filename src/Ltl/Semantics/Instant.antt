-- ===== src/Ltl/Semantics/Instant.antt =====
-- `Evaluator::evaluate` of lib/bombadil-ltl/src/eval.rs on formulas about one state: nothing is left.
use mathlib.Core.Path.{subst}
use bombadil.Common.{
  ℕ, zero, suc, Bool, true, false, not, ◌&&◌, ◌||◌, none, some, ◌≡◌, refl, sym, arith,
  if◌then◌else◌,
}
use bombadil.Common.Run.{Comp, Returns, return, return-Returns, >>=-Returns, ◌>>=◌}
use bombadil.Ltl.Domain.{Domain}
use bombadil.Ltl.Formula.{Formula}
use bombadil.Ltl.Value.{Value}
use bombadil.Ltl.Combine.{evaluate_and, evaluate_or, evaluate_implies}
use bombadil.Ltl.Attach.{attach_state}
use bombadil.Ltl.Eval.{EvaluateThunk, evaluate}
use bombadil.Ltl.Semantics.{Meaning, holds}
use bombadil.Ltl.Semantics.Evaluate.{Answers}

module _ {D : Domain} (meaning : Meaning D) where
  -- A formula about one state: no temporal operator, also in what thunks return, and these nest at
  -- most `fuel` deep.
  abbrev pub IsInstant : ℕ → Formula D → Type 0
  IsInstant fuel (Formula.pure value pretty) = Unit
  IsInstant zero (Formula.thunk function negated) = ⊥
  IsInstant (suc fuel) (Formula.thunk function negated) =
      (i : ℕ) → IsInstant fuel (meaning i function negated)
  IsInstant fuel (Formula.and left right) = IsInstant fuel left × IsInstant fuel right
  IsInstant fuel (Formula.or left right) = IsInstant fuel left × IsInstant fuel right
  IsInstant fuel (Formula.implies left right) = IsInstant fuel left × IsInstant fuel right
  IsInstant fuel (Formula.next formula) = ⊥
  IsInstant fuel (Formula.always formula bound) = ⊥
  IsInstant fuel (Formula.eventually formula bound) = ⊥

module _ {D : Domain} where
  -- A value with nothing left to evaluate.
  abbrev pub Decides : Value D → Bool → Type 0
  Decides (Value.true_with _) b = b ≡ true
  Decides (Value.false_with _ none) b = b ≡ false
  Decides _ b = ⊥

  and_Decides :
      (u v : Value D) (b c : Bool) → Decides u b → Decides v c → Decides (evaluate_and u v) (b && c)
  unfolding evaluate_and
  and_Decides (Value.true_with _) (Value.true_with _) b c h k = ground (arith, h, k)
  and_Decides (Value.true_with _) (Value.false_with _ none) b c h k = ground (arith, h, k)
  and_Decides (Value.false_with _ none) (Value.true_with _) b c h k = ground (arith, h, k)
  and_Decides (Value.false_with _ none) (Value.false_with _ none) b c h k = ground (arith, h, k)
  and_Decides (Value.true_with _) (Value.false_with _ (some _)) b c h k = absurd k
  and_Decides (Value.true_with _) (Value.residual _) b c h k = absurd k
  and_Decides (Value.false_with _ none) (Value.false_with _ (some _)) b c h k = absurd k
  and_Decides (Value.false_with _ none) (Value.residual _) b c h k = absurd k
  and_Decides (Value.false_with _ (some _)) v b c h k = absurd h
  and_Decides (Value.residual _) v b c h k = absurd h

  or_Decides :
      (u v : Value D) (b c : Bool) → Decides u b → Decides v c → Decides (evaluate_or u v) (b || c)
  unfolding evaluate_or
  or_Decides (Value.true_with _) (Value.true_with _) b c h k = ground (arith, h, k)
  or_Decides (Value.true_with _) (Value.false_with _ none) b c h k = ground (arith, h, k)
  or_Decides (Value.false_with _ none) (Value.true_with _) b c h k = ground (arith, h, k)
  or_Decides (Value.false_with _ none) (Value.false_with _ none) b c h k = ground (arith, h, k)
  or_Decides (Value.true_with _) (Value.false_with _ (some _)) b c h k = absurd k
  or_Decides (Value.true_with _) (Value.residual _) b c h k = absurd k
  or_Decides (Value.false_with _ none) (Value.false_with _ (some _)) b c h k = absurd k
  or_Decides (Value.false_with _ none) (Value.residual _) b c h k = absurd k
  or_Decides (Value.false_with _ (some _)) v b c h k = absurd h
  or_Decides (Value.residual _) v b c h k = absurd h

  implies_Decides :
      (f : Formula D) (u v : Value D) (b c : Bool)
      → Decides u b
      → Decides v c
      → Decides (evaluate_implies f u v) (not b || c)
  unfolding evaluate_implies
  implies_Decides f (Value.true_with _) (Value.true_with _) b c h k = ground (arith, h, k)
  implies_Decides f (Value.true_with _) (Value.false_with _ none) b c h k = ground (arith, h, k)
  implies_Decides f (Value.false_with _ none) v b c h k = ground (arith, h)
  implies_Decides f (Value.true_with _) (Value.false_with _ (some _)) b c h k = absurd k
  implies_Decides f (Value.true_with _) (Value.residual _) b c h k = absurd k
  implies_Decides f (Value.false_with _ (some _)) v b c h k = absurd h
  implies_Decides f (Value.residual _) v b c h k = absurd h

  if_Decides :
      (empty : Bool) (u v : Value D) (b : Bool)
      → Decides u b
      → Decides v b
      → Decides (if empty then u else v) b
  if_Decides true u v b h k = h
  if_Decides false u v b h k = k

  attach_Decides :
      (v : Value D) (state : D.State) (b : Bool) → Decides v b → Decides (attach_state v state) b
  unfolding attach_state
  attach_Decides (Value.true_with s) state b h = if_Decides (D.is_empty state) _ _ b h h
  attach_Decides (Value.false_with w none) state b h = if_Decides (D.is_empty state) _ _ b h h
  attach_Decides (Value.false_with _ (some _)) state b h = absurd h
  attach_Decides (Value.residual _) state b h = absurd h

module _ {D : Domain} {W E : Type 0} (thunks : ℕ → EvaluateThunk D W E) (meaning : Meaning D)
    (answers : Answers thunks meaning) where
  -- A computation decides what `g` tells, for any number of later states.
  abbrev Settles : Comp W E (Value D) → (ℕ → Bool) → Type 0
  Settles m g = Returns m (λ v. (n : ℕ) → Decides v (g n))

  both_Settle :
      (l r : Comp W E (Value D)) (p q s : ℕ → Bool) (combine : Value D → Value D → Value D)
      → ((u v : Value D) (n : ℕ) → Decides u (p n) → Decides v (q n) → Decides (combine u v) (s n))
      → Settles l p
      → Settles r q
      → Settles (l >>= λ u. r >>= λ v. return (combine u v)) s
  both_Settle l r p q s combine law hl hr =
      >>=-Returns l _ _ _ hl
        λ u hu. >>=-Returns r _ _ _ hr λ v hv. return-Returns _ _ (λ n. law u v n (hu n) (hv n))

  -- Where every thunk returns what `meaning` gives it, a formula about one state is decided at once.
  pub evaluate-Decides :
      (fuel : ℕ) (f : Formula D) (i : ℕ) (time : D.Time)
      → IsInstant meaning fuel f
      → Returns
          (evaluate (thunks i) fuel f time)
          (λ v. (n : ℕ) → Decides v (holds meaning fuel f i n))
  unfolding evaluate holds
  evaluate-Decides fuel (Formula.pure true _) i time h = return-Returns _ _ (λ n. refl)
  evaluate-Decides fuel (Formula.pure false _) i time h = return-Returns _ _ (λ n. refl)
  evaluate-Decides zero (Formula.thunk _ _) i time h = absurd h
  evaluate-Decides (suc fuel) (Formula.thunk function negated) i time h =
      let g = meaning i function negated in
      >>=-Returns (thunks i function negated) _ _ _ (answers i function negated) λ (f, state) e.
        >>=-Returns (evaluate (thunks i) fuel f time) _ _ _
          (subst (λ k. Settles (evaluate (thunks i) fuel k time) (holds meaning fuel g i)) (sym e)
            (evaluate-Decides fuel g i time (h i)))
          λ v d. return-Returns _ _ (λ n. attach_Decides v state _ (d n))
  evaluate-Decides fuel (Formula.and l r) i time h =
      both_Settle _ _ _ _ _ evaluate_and (λ u v n. and_Decides u v _ _)
        (evaluate-Decides fuel l i time h.0) (evaluate-Decides fuel r i time h.1)
  evaluate-Decides fuel (Formula.or l r) i time h =
      both_Settle _ _ _ _ _ evaluate_or (λ u v n. or_Decides u v _ _)
        (evaluate-Decides fuel l i time h.0) (evaluate-Decides fuel r i time h.1)
  evaluate-Decides fuel (Formula.implies l r) i time h =
      both_Settle _ _ _ _ _ (evaluate_implies l) (λ u v n. implies_Decides l u v _ _)
        (evaluate-Decides fuel l i time h.0) (evaluate-Decides fuel r i time h.1)
  evaluate-Decides fuel (Formula.next f) i time h = absurd h
  evaluate-Decides fuel (Formula.always f _) i time h = absurd h
  evaluate-Decides fuel (Formula.eventually f _) i time h = absurd h
