-- ===== src/Ltl/Semantics/Fuel.antt =====
-- More fuel than thunks need changes nothing in what formulas and values say.
use mathlib.Core.Path.{fun_ext}
use bombadil.Common.{ℕ, zero, suc, Bool, Option, none, some, ◌≡◌, refl, ap, ◌∙◌}
use bombadil.Ltl.Domain.{Domain}
use bombadil.Ltl.Formula.{Formula}
use bombadil.Ltl.Value.{Value, Residual, Derived, Leaning, assume_true, assume_false}
use bombadil.Ltl.Semantics.{
  Meaning, globally, finally, holds, derived_holds, residual_holds, value_holds, Fits, DerivedFits,
  ResidualFits, OptionFits,
}
use bombadil.Ltl.Semantics.Says.{Says}

module _ {D : Domain} (meaning : Meaning D) where
  pub Fits-suc : (fuel : ℕ) (f : Formula D) → Fits meaning fuel f → Fits meaning (suc fuel) f
  Fits-suc fuel (Formula.pure _ _) h = h
  Fits-suc zero (Formula.thunk _ _) h = absurd h
  Fits-suc (suc fuel) (Formula.thunk function negated) h =
      λ i. Fits-suc fuel (meaning i function negated) (h i)
  Fits-suc fuel (Formula.and l r) h = (Fits-suc fuel l h.0, Fits-suc fuel r h.1)
  Fits-suc fuel (Formula.or l r) h = (Fits-suc fuel l h.0, Fits-suc fuel r h.1)
  Fits-suc fuel (Formula.implies l r) h = (Fits-suc fuel l h.0, Fits-suc fuel r h.1)
  Fits-suc fuel (Formula.next f) h = Fits-suc fuel f h
  Fits-suc fuel (Formula.always f _) h = (h.0, Fits-suc fuel f h.1)
  Fits-suc fuel (Formula.eventually f _) h = (h.0, Fits-suc fuel f h.1)

  pub holds-suc :
      (fuel : ℕ) (f : Formula D) (i n : ℕ)
      → Fits meaning fuel f
      → holds meaning (suc fuel) f i n ≡ holds meaning fuel f i n
  unfolding holds
  holds-suc fuel (Formula.pure _ _) i n h = refl
  holds-suc zero (Formula.thunk _ _) i n h = absurd h
  holds-suc (suc fuel) (Formula.thunk function negated) i n h =
      holds-suc fuel (meaning i function negated) i n (h i)
  holds-suc fuel (Formula.and l r) i n h = cc (holds-suc fuel l i n h.0, holds-suc fuel r i n h.1)
  holds-suc fuel (Formula.or l r) i n h = cc (holds-suc fuel l i n h.0, holds-suc fuel r i n h.1)
  holds-suc fuel (Formula.implies l r) i n h =
      cc (holds-suc fuel l i n h.0, holds-suc fuel r i n h.1)
  holds-suc fuel (Formula.next f) i zero h = refl
  holds-suc fuel (Formula.next f) i (suc n) h = holds-suc fuel f (suc i) n h
  holds-suc fuel (Formula.always f _) i n h =
      ap (λ p. globally p i n) (fun_ext (λ j. fun_ext (λ m. holds-suc fuel f j m h.1)))
  holds-suc fuel (Formula.eventually f _) i n h =
      ap (λ p. finally p i n) (fun_ext (λ j. fun_ext (λ m. holds-suc fuel f j m h.1)))

  module _ (fuel : ℕ) where
    DerivedFits-suc :
        (d : Derived D) (l : Leaning D)
        → DerivedFits meaning fuel d l
        → DerivedFits meaning (suc fuel) d l
    DerivedFits-suc (Derived.once _ f) assume_true h = Fits-suc fuel f h
    DerivedFits-suc (Derived.once _ f) (assume_false _) h = h
    DerivedFits-suc (Derived.always _ _ f) assume_true h = (h.0, Fits-suc fuel f h.1)
    DerivedFits-suc (Derived.always _ _ f) (assume_false _) h = h
    DerivedFits-suc (Derived.eventually _ _ f) assume_true h = h
    DerivedFits-suc (Derived.eventually _ _ f) (assume_false _) h = (h.0, Fits-suc fuel f h.1)

    globally-suc :
        (f : Formula D) (i n : ℕ)
        → Fits meaning fuel f
        → globally (holds meaning (suc fuel) f) i n ≡ globally (holds meaning fuel f) i n
    globally-suc f i n h =
        ap (λ p. globally p i n) (fun_ext (λ j. fun_ext (λ m. holds-suc fuel f j m h)))

    finally-suc :
        (f : Formula D) (i n : ℕ)
        → Fits meaning fuel f
        → finally (holds meaning (suc fuel) f) i n ≡ finally (holds meaning fuel f) i n
    finally-suc f i n h =
        ap (λ p. finally p i n) (fun_ext (λ j. fun_ext (λ m. holds-suc fuel f j m h)))

    derived_holds-suc :
        (d : Derived D) (l : Leaning D) (i n : ℕ)
        → DerivedFits meaning fuel d l
        → derived_holds meaning (suc fuel) d i n ≡ derived_holds meaning fuel d i n
    unfolding derived_holds
    derived_holds-suc (Derived.once _ f) assume_true i n h = holds-suc fuel f i n h
    derived_holds-suc (Derived.once _ f) (assume_false _) i n h = absurd h
    derived_holds-suc (Derived.always _ _ f) assume_true i n h = globally-suc f i n h.1
    derived_holds-suc (Derived.always _ _ f) (assume_false _) i n h = absurd h
    derived_holds-suc (Derived.eventually _ _ f) assume_true i n h = absurd h
    derived_holds-suc (Derived.eventually _ _ f) (assume_false _) i n h = finally-suc f i n h.1

    ResidualFits-suc :
        (r : Residual D) → ResidualFits meaning fuel r → ResidualFits meaning (suc fuel) r
    ResidualFits-suc (Residual.true_with _) h = h
    ResidualFits-suc (Residual.false_with _) h = h
    ResidualFits-suc (Residual.derived d l) h = DerivedFits-suc d l h
    ResidualFits-suc (Residual.and l r) h = (ResidualFits-suc l h.0, ResidualFits-suc r h.1)
    ResidualFits-suc (Residual.or l r) h = (ResidualFits-suc l h.0, ResidualFits-suc r h.1)
    ResidualFits-suc (Residual.implies _ l r) h = (ResidualFits-suc l h.0, ResidualFits-suc r h.1)
    ResidualFits-suc (Residual.or_eventually _ _ _ l r) h =
        (h.0, ResidualFits-suc l h.1, ResidualFits-suc r h.2)
    ResidualFits-suc (Residual.and_always f _ _ _ l r) h =
        (h.0, Fits-suc fuel f h.1, ResidualFits-suc l h.2, ResidualFits-suc r h.3)

    OptionFits-suc :
        (c : Option (Residual D)) → OptionFits meaning fuel c → OptionFits meaning (suc fuel) c
    OptionFits-suc none h = tt
    OptionFits-suc (some r) h = ResidualFits-suc r h

    residual_holds-suc :
        (r : Residual D) (i n : ℕ)
        → ResidualFits meaning fuel r
        → residual_holds meaning (suc fuel) r i n ≡ residual_holds meaning fuel r i n
    unfolding residual_holds
    residual_holds-suc (Residual.true_with _) i n h = refl
    residual_holds-suc (Residual.false_with _) i n h = refl
    residual_holds-suc (Residual.derived d l) i zero h = refl
    residual_holds-suc (Residual.derived d l) i (suc n) h = derived_holds-suc d l i n h
    residual_holds-suc (Residual.and l r) i n h =
        cc (residual_holds-suc l i n h.0, residual_holds-suc r i n h.1)
    residual_holds-suc (Residual.or l r) i n h =
        cc (residual_holds-suc l i n h.0, residual_holds-suc r i n h.1)
    residual_holds-suc (Residual.implies _ l r) i n h =
        cc (residual_holds-suc l i n h.0, residual_holds-suc r i n h.1)
    residual_holds-suc (Residual.or_eventually _ _ _ l r) i n h =
        cc (residual_holds-suc l i n h.1, residual_holds-suc r i n h.2)
    residual_holds-suc (Residual.and_always _ _ _ _ l r) i n h =
        cc (residual_holds-suc l i n h.2, residual_holds-suc r i n h.3)

    pub Says-suc :
        (v : Value D) (i : ℕ) (p : ℕ → Bool)
        → Says meaning fuel v i p
        → Says meaning (suc fuel) v i p
    unfolding value_holds
    Says-suc (Value.true_with _) i p h = h
    Says-suc (Value.false_with _ c) i p h = (OptionFits-suc c h.0, h.1)
    Says-suc (Value.residual r) i p h =
        (ResidualFits-suc r h.0, λ n. residual_holds-suc r (suc i) n h.0 ∙ h.1 n)
