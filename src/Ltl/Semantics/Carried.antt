-- ===== src/Ltl/Semantics/Carried.antt =====
-- `evaluate_and_always` and `evaluate_or_eventually` of lib/bombadil-ltl/src/eval.rs do on finite
-- traces what their operators say.
use bombadil.Common.{ℕ, suc, Bool, ◌&&◌, ◌||◌, Option, none, some, ◌≡◌, refl, arith}
use bombadil.Ltl.Domain.{Domain}
use bombadil.Ltl.Formula.{Formula}
use bombadil.Ltl.Value.{Value, Residual}
use bombadil.Ltl.Combine.{
  evaluate_and_always, evaluate_or_eventually, combine_options, pending_residual,
  and_always_continuation, always_residual,
}
use bombadil.Ltl.Semantics.{Meaning, value_holds, Fits, ValueFits, ResidualFits, OptionFits}
use bombadil.Ltl.Semantics.Says.{Says}
use bombadil.Ltl.Semantics.Combine.{combine_options-OptionFits}

module _ {D : Domain} (meaning : Meaning D) (fuel : ℕ) where
  evaluate_and_always-holds :
      (f : Formula D) (start onset time : D.Time) (l r : Value D) (i n : ℕ)
      → value_holds meaning fuel (evaluate_and_always f start none onset time l r) i n
        ≡ (value_holds meaning fuel l i n && value_holds meaning fuel r i n)
  unfolding evaluate_and_always value_holds
  evaluate_and_always-holds f start onset time l r i n = ground arith

  pending_residual-OptionFits :
      (v : Value D) → ValueFits meaning fuel v → OptionFits meaning fuel (pending_residual v)
  unfolding pending_residual
  pending_residual-OptionFits (Value.true_with _) h = tt
  pending_residual-OptionFits (Value.false_with _ none) h = tt
  pending_residual-OptionFits (Value.false_with _ (some _)) h = h
  pending_residual-OptionFits (Value.residual _) h = h

  and_always_continuation-ResidualFits :
      (f : Formula D) (start onset : D.Time) (l r : Value D)
      → Fits meaning fuel f
      → ValueFits meaning fuel l
      → ValueFits meaning fuel r
      → ResidualFits meaning fuel (and_always_continuation f start none onset l r)
  unfolding and_always_continuation
  and_always_continuation-ResidualFits f start onset l r hf hl hr =
      continued (combine_options (pending_residual l) (pending_residual r) Residual.and) (
        combine_options-OptionFits meaning fuel Residual.and (λ l r h k. (h, k))
          (pending_residual l) (pending_residual r) (pending_residual-OptionFits l hl)
          (pending_residual-OptionFits r hr))
    where
      continued :
          (o : Option (Residual D))
          → OptionFits meaning fuel o
          → ResidualFits meaning fuel (elim o [
            | some inner ↦
                Residual.and_always f start none onset inner (always_residual f start none)
            | none ↦ always_residual f start none
          ])
      continued none h = (refl, hf)
      continued (some inner) h = (refl, hf, h, (refl, hf))

  evaluate_and_always-ValueFits :
      (f : Formula D) (start onset time : D.Time) (l r : Value D)
      → Fits meaning fuel f
      → ValueFits meaning fuel l
      → ValueFits meaning fuel r
      → ValueFits meaning fuel (evaluate_and_always f start none onset time l r)
  unfolding evaluate_and_always
  evaluate_and_always-ValueFits f start onset time (Value.true_with _) (Value.true_with _) hf hl
        hr =
      tt
  evaluate_and_always-ValueFits f start onset time (Value.true_with s) (Value.false_with v c) hf hl
        hr =
      and_always_continuation-ResidualFits f start onset (Value.true_with s) (Value.false_with v c)
        hf hl hr
  evaluate_and_always-ValueFits f start onset time (Value.true_with _) (Value.residual _) hf hl hr =
      (refl, hf, tt, hr)
  evaluate_and_always-ValueFits f start onset time (Value.false_with v c) (Value.true_with s) hf hl
        hr =
      and_always_continuation-ResidualFits f start onset (Value.false_with v c) (Value.true_with s)
        hf hl hr
  evaluate_and_always-ValueFits f start onset time (Value.false_with v c) (Value.false_with u d) hf
        hl hr =
      and_always_continuation-ResidualFits f start onset (Value.false_with v c)
        (Value.false_with u d) hf hl hr
  evaluate_and_always-ValueFits f start onset time (Value.false_with v c) (Value.residual r) hf hl
        hr =
      and_always_continuation-ResidualFits f start onset (Value.false_with v c) (Value.residual r)
        hf hl hr
  evaluate_and_always-ValueFits f start onset time (Value.residual _) (Value.true_with _) hf hl hr =
      (refl, hf, hl, tt)
  evaluate_and_always-ValueFits f start onset time (Value.residual r) (Value.false_with v c) hf hl
        hr =
      and_always_continuation-ResidualFits f start onset (Value.residual r) (Value.false_with v c)
        hf hl hr
  evaluate_and_always-ValueFits f start onset time (Value.residual _) (Value.residual _) hf hl hr =
      (refl, hf, hl, hr)

  evaluate_or_eventually-holds :
      (f : Formula D) (start time : D.Time) (l r : Value D) (i n : ℕ)
      → value_holds meaning fuel (evaluate_or_eventually f start none time l r) i n
        ≡ (value_holds meaning fuel l i n || value_holds meaning fuel r i n)
  unfolding evaluate_or_eventually value_holds
  evaluate_or_eventually-holds f start time l r i n = ground arith

  evaluate_or_eventually-ValueFits :
      (f : Formula D) (start time : D.Time) (l r : Value D)
      → ValueFits meaning fuel l
      → ValueFits meaning fuel r
      → ValueFits meaning fuel (evaluate_or_eventually f start none time l r)
  unfolding evaluate_or_eventually
  evaluate_or_eventually-ValueFits f start time (Value.true_with _) (Value.true_with _) hl hr = tt
  evaluate_or_eventually-ValueFits f start time (Value.true_with _) (Value.false_with _ _) hl hr =
      tt
  evaluate_or_eventually-ValueFits f start time (Value.true_with _) (Value.residual _) hl hr = tt
  evaluate_or_eventually-ValueFits f start time (Value.false_with _ _) (Value.true_with _) hl hr =
      tt
  evaluate_or_eventually-ValueFits f start time (Value.false_with _ _) (Value.false_with _ _) hl
        hr =
      tt
  evaluate_or_eventually-ValueFits f start time (Value.false_with _ _) (Value.residual _) hl hr = hr
  evaluate_or_eventually-ValueFits f start time (Value.residual _) (Value.true_with _) hl hr = tt
  evaluate_or_eventually-ValueFits f start time (Value.residual _) (Value.false_with _ _) hl hr = hl
  evaluate_or_eventually-ValueFits f start time (Value.residual _) (Value.residual _) hl hr =
      (refl, hl, hr)

  module _ (l r : Value D) (i : ℕ) (p q : ℕ → Bool) (hl : Says meaning fuel l i p)
      (hr : Says meaning fuel r i q) where
    pub evaluate_and_always-Says :
        (f : Formula D) (start onset time : D.Time)
        → Fits meaning fuel f
        → Says meaning fuel (evaluate_and_always f start none onset time l r) i (λ n. p n && q n)
    evaluate_and_always-Says f start onset time hf = (
      evaluate_and_always-ValueFits f start onset time l r hf hl.0 hr.0,
      λ n. cc (evaluate_and_always-holds f start onset time l r (suc i) n, hl.1 n, hr.1 n),
    )

    pub evaluate_or_eventually-Says :
        (f : Formula D) (start time : D.Time)
        → Says meaning fuel (evaluate_or_eventually f start none time l r) i (λ n. p n || q n)
    evaluate_or_eventually-Says f start time = (
      evaluate_or_eventually-ValueFits f start time l r hl.0 hr.0,
      λ n. cc (evaluate_or_eventually-holds f start time l r (suc i) n, hl.1 n, hr.1 n),
    )
