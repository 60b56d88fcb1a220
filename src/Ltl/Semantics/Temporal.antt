-- ===== src/Ltl/Semantics/Temporal.antt =====
-- `evaluate_always` and `evaluate_eventually` of lib/bombadil-ltl/src/eval.rs, past the value of the
-- subformula: what they leave for later is what their operators say.
use bombadil.Common.{ℕ, zero, suc, none, some, ◌≡◌, refl, arith}
use bombadil.Ltl.Domain.{Domain}
use bombadil.Ltl.Formula.{Formula}
use bombadil.Ltl.Value.{Value}
use bombadil.Ltl.Combine.{always_value, eventually_value}
use bombadil.Ltl.Semantics.{Meaning, globally, finally, holds, value_holds, ValueFits, Fits}
use bombadil.Ltl.Semantics.Says.{Says}

module _ {D : Domain} (meaning : Meaning D) (fuel : ℕ) where
  -- What is left of `always` and of `eventually` after the current state.
  always_value-holds :
      (f : Formula D) (start time : D.Time) (v : Value D) (i n : ℕ)
      → value_holds meaning fuel v (suc i) n ≡ holds meaning fuel f i n
      → value_holds meaning fuel (always_value f start none time v) (suc i) n
        ≡ globally (holds meaning fuel f) i n
  unfolding always_value value_holds globally
  always_value-holds f start time (Value.true_with _) i zero h = h
  always_value-holds f start time (Value.true_with _) i (suc n) h = ground arith
  always_value-holds f start time (Value.false_with _ none) i zero h = h
  always_value-holds f start time (Value.false_with _ none) i (suc n) h = ground arith
  always_value-holds f start time (Value.false_with _ (some _)) i zero h = h
  always_value-holds f start time (Value.false_with _ (some _)) i (suc n) h = ground arith
  always_value-holds f start time (Value.residual r) i zero h = ground arith
  always_value-holds f start time (Value.residual r) i (suc n) h = ground arith

  always_value-ValueFits :
      (f : Formula D) (start time : D.Time) (v : Value D)
      → Fits meaning fuel f
      → ValueFits meaning fuel v
      → ValueFits meaning fuel (always_value f start none time v)
  unfolding always_value
  always_value-ValueFits f start time (Value.true_with _) hf h = (refl, hf)
  always_value-ValueFits f start time (Value.false_with _ none) hf h = (refl, hf)
  always_value-ValueFits f start time (Value.false_with _ (some _)) hf h = (refl, hf, h, (refl, hf))
  always_value-ValueFits f start time (Value.residual _) hf h = (refl, hf, h, (refl, hf))

  pub always_value-Says :
      (f : Formula D) (start time : D.Time) (v : Value D) (i : ℕ)
      → Fits meaning fuel f
      → Says meaning fuel v i (holds meaning fuel f i)
      → Says meaning fuel (always_value f start none time v) i (globally (holds meaning fuel f) i)
  always_value-Says f start time v i hf h = (
    always_value-ValueFits f start time v hf h.0,
    λ n. always_value-holds f start time v i n (h.1 n),
  )

  eventually_value-holds :
      (f : Formula D) (start : D.Time) (v : Value D) (i n : ℕ)
      → value_holds meaning fuel v (suc i) n ≡ holds meaning fuel f i n
      → value_holds meaning fuel (eventually_value f start none v) (suc i) n
        ≡ finally (holds meaning fuel f) i n
  unfolding eventually_value value_holds finally
  eventually_value-holds f start (Value.true_with _) i zero h = h
  eventually_value-holds f start (Value.true_with _) i (suc n) h = ground arith
  eventually_value-holds f start (Value.false_with _ _) i zero h = h
  eventually_value-holds f start (Value.false_with _ _) i (suc n) h = ground arith
  eventually_value-holds f start (Value.residual r) i zero h = ground arith
  eventually_value-holds f start (Value.residual r) i (suc n) h = ground arith

  eventually_value-ValueFits :
      (f : Formula D) (start : D.Time) (v : Value D)
      → Fits meaning fuel f
      → ValueFits meaning fuel v
      → ValueFits meaning fuel (eventually_value f start none v)
  unfolding eventually_value
  eventually_value-ValueFits f start (Value.true_with _) hf h = tt
  eventually_value-ValueFits f start (Value.false_with _ _) hf h = (refl, hf)
  eventually_value-ValueFits f start (Value.residual _) hf h = (refl, h, (refl, hf))

  pub eventually_value-Says :
      (f : Formula D) (start : D.Time) (v : Value D) (i : ℕ)
      → Fits meaning fuel f
      → Says meaning fuel v i (holds meaning fuel f i)
      → Says meaning fuel (eventually_value f start none v) i (finally (holds meaning fuel f) i)
  eventually_value-Says f start v i hf h = (
    eventually_value-ValueFits f start v hf h.0,
    λ n. eventually_value-holds f start v i n (h.1 n),
  )
