-- ===== src/Ltl/Semantics/Combine.antt =====
-- `evaluate_and`, `evaluate_or` and `evaluate_implies` of lib/bombadil-ltl/src/eval.rs do on finite
-- traces what their operators say.
use bombadil.Common.{ℕ, suc, Bool, not, ◌&&◌, ◌||◌, Option, none, some, ◌≡◌, arith}
use bombadil.Ltl.Domain.{Domain}
use bombadil.Ltl.Formula.{Formula}
use bombadil.Ltl.Value.{Value, Residual}
use bombadil.Ltl.Combine.{
  evaluate_and, evaluate_or, evaluate_implies, combine_options, and_continuation,
}
use bombadil.Ltl.Semantics.{Meaning, value_holds, ValueFits, ResidualFits, OptionFits}
use bombadil.Ltl.Semantics.Says.{Says}

module _ {D : Domain} (meaning : Meaning D) (fuel : ℕ) where
  evaluate_and-holds :
      (l r : Value D) (i n : ℕ)
      → value_holds meaning fuel (evaluate_and l r) i n
        ≡ (value_holds meaning fuel l i n && value_holds meaning fuel r i n)
  unfolding evaluate_and value_holds
  evaluate_and-holds l r i n = ground arith

  pub combine_options-OptionFits :
      (combine : Residual D → Residual D → Residual D)
      → ((l r : Residual D)
          → ResidualFits meaning fuel l
          → ResidualFits meaning fuel r
          → ResidualFits meaning fuel (combine l r))
      → (c d : Option (Residual D)) → OptionFits meaning fuel c
      → OptionFits meaning fuel d
      → OptionFits meaning fuel (combine_options c d combine)
  unfolding combine_options
  combine_options-OptionFits combine k none none hc hd = tt
  combine_options-OptionFits combine k none (some r) hc hd = hd
  combine_options-OptionFits combine k (some l) none hc hd = hc
  combine_options-OptionFits combine k (some l) (some r) hc hd = k l r hc hd

  and_continuation-ResidualFits :
      (r : Residual D) (c : Option (Residual D))
      → ResidualFits meaning fuel r
      → OptionFits meaning fuel c
      → ResidualFits meaning fuel (and_continuation r c)
  unfolding and_continuation
  and_continuation-ResidualFits r none hr hc = hr
  and_continuation-ResidualFits r (some _) hr hc = (hr, hc)

  evaluate_and-ValueFits :
      (l r : Value D)
      → ValueFits meaning fuel l
      → ValueFits meaning fuel r
      → ValueFits meaning fuel (evaluate_and l r)
  unfolding evaluate_and
  evaluate_and-ValueFits (Value.true_with _) (Value.true_with _) hl hr = tt
  evaluate_and-ValueFits (Value.true_with _) (Value.false_with _ _) hl hr = hr
  evaluate_and-ValueFits (Value.true_with _) (Value.residual _) hl hr = (tt, hr)
  evaluate_and-ValueFits (Value.false_with _ _) (Value.true_with _) hl hr = hl
  evaluate_and-ValueFits (Value.false_with _ c) (Value.false_with _ d) hl hr =
      combine_options-OptionFits Residual.and (λ l r h k. (h, k)) c d hl hr
  evaluate_and-ValueFits (Value.false_with _ c) (Value.residual r) hl hr =
      and_continuation-ResidualFits r c hr hl
  evaluate_and-ValueFits (Value.residual _) (Value.true_with _) hl hr = (hl, tt)
  evaluate_and-ValueFits (Value.residual r) (Value.false_with _ c) hl hr =
      and_continuation-ResidualFits r c hl hr
  evaluate_and-ValueFits (Value.residual _) (Value.residual _) hl hr = (hl, hr)

  evaluate_or-holds :
      (l r : Value D) (i n : ℕ)
      → value_holds meaning fuel (evaluate_or l r) i n
        ≡ (value_holds meaning fuel l i n || value_holds meaning fuel r i n)
  unfolding evaluate_or value_holds
  evaluate_or-holds l r i n = ground arith

  evaluate_or-ValueFits :
      (l r : Value D)
      → ValueFits meaning fuel l
      → ValueFits meaning fuel r
      → ValueFits meaning fuel (evaluate_or l r)
  unfolding evaluate_or
  evaluate_or-ValueFits (Value.true_with _) (Value.true_with _) hl hr = tt
  evaluate_or-ValueFits (Value.true_with _) (Value.false_with _ _) hl hr = tt
  evaluate_or-ValueFits (Value.true_with _) (Value.residual _) hl hr = tt
  evaluate_or-ValueFits (Value.false_with _ _) (Value.true_with _) hl hr = tt
  evaluate_or-ValueFits (Value.false_with _ c) (Value.false_with _ d) hl hr =
      combine_options-OptionFits Residual.or (λ l r h k. (h, k)) c d hl hr
  evaluate_or-ValueFits (Value.false_with _ _) (Value.residual _) hl hr = hr
  evaluate_or-ValueFits (Value.residual _) (Value.true_with _) hl hr = tt
  evaluate_or-ValueFits (Value.residual _) (Value.false_with _ _) hl hr = hl
  evaluate_or-ValueFits (Value.residual _) (Value.residual _) hl hr = (hl, hr)

  evaluate_implies-holds :
      (f : Formula D) (l r : Value D) (i n : ℕ)
      → value_holds meaning fuel (evaluate_implies f l r) i n
        ≡ (not (value_holds meaning fuel l i n) || value_holds meaning fuel r i n)
  unfolding evaluate_implies value_holds
  evaluate_implies-holds f l r i n = ground arith

  evaluate_implies-ValueFits :
      (f : Formula D) (l r : Value D)
      → ValueFits meaning fuel l
      → ValueFits meaning fuel r
      → ValueFits meaning fuel (evaluate_implies f l r)
  unfolding evaluate_implies
  evaluate_implies-ValueFits f (Value.true_with _) (Value.true_with _) hl hr = tt
  evaluate_implies-ValueFits f (Value.true_with _) (Value.false_with _ none) hl hr = tt
  evaluate_implies-ValueFits f (Value.true_with _) (Value.false_with _ (some _)) hl hr = (tt, hr)
  evaluate_implies-ValueFits f (Value.true_with _) (Value.residual _) hl hr = (tt, hr)
  evaluate_implies-ValueFits f (Value.false_with _ _) (Value.true_with _) hl hr = tt
  evaluate_implies-ValueFits f (Value.false_with _ _) (Value.false_with _ _) hl hr = tt
  evaluate_implies-ValueFits f (Value.false_with _ _) (Value.residual _) hl hr = tt
  evaluate_implies-ValueFits f (Value.residual _) (Value.true_with _) hl hr = tt
  evaluate_implies-ValueFits f (Value.residual _) (Value.false_with _ _) hl hr = (hl, tt)
  evaluate_implies-ValueFits f (Value.residual _) (Value.residual _) hl hr = (hl, hr)

  module _ (l r : Value D) (i : ℕ) (p q : ℕ → Bool) (hl : Says meaning fuel l i p)
      (hr : Says meaning fuel r i q) where
    pub evaluate_and-Says : Says meaning fuel (evaluate_and l r) i (λ n. p n && q n)
    evaluate_and-Says = (
      evaluate_and-ValueFits l r hl.0 hr.0,
      λ n. cc (evaluate_and-holds l r (suc i) n, hl.1 n, hr.1 n),
    )

    pub evaluate_or-Says : Says meaning fuel (evaluate_or l r) i (λ n. p n || q n)
    evaluate_or-Says = (
      evaluate_or-ValueFits l r hl.0 hr.0,
      λ n. cc (evaluate_or-holds l r (suc i) n, hl.1 n, hr.1 n),
    )

    pub evaluate_implies-Says :
        (f : Formula D) → Says meaning fuel (evaluate_implies f l r) i (λ n. not (p n) || q n)
    evaluate_implies-Says f = (
      evaluate_implies-ValueFits f l r hl.0 hr.0,
      λ n. cc (evaluate_implies-holds f l r (suc i) n, hl.1 n, hr.1 n),
    )
