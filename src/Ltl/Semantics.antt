-- ===== src/Ltl/Semantics.antt =====
-- The specification of lib/bombadil-ltl: what a formula says of a finite trace. Position `i` is the
-- current state and `n` the number of states after it. `next` is weak: with no state left it holds.
-- Thunks are given by `meaning`, the formula that each returns at each position.
pub mod Says
pub mod Combine
pub mod Carried
pub mod Temporal
pub mod Attach
pub mod Fuel
pub mod Evaluate
pub mod Instant
pub mod Step
pub mod Nnf
pub mod Stop
pub mod Trace
use bombadil.Common.{ℕ, zero, suc, Bool, true, false, not, ◌&&◌, ◌||◌, Option, none, some, ◌≡◌}
use bombadil.Ltl.Domain.{Domain}
use bombadil.Ltl.Formula.{Formula}
use bombadil.Ltl.Value.{Value, Residual, Derived, Leaning, assume_true, assume_false}

-- `p` holds at each position, the current one included.
unfoldable pub globally : (ℕ → ℕ → Bool) → ℕ → ℕ → Bool
globally p i zero = p i zero
globally p i (suc n) = p i (suc n) && globally p (suc i) n

-- `p` holds at some position, the current one included.
unfoldable pub finally : (ℕ → ℕ → Bool) → ℕ → ℕ → Bool
finally p i zero = p i zero
finally p i (suc n) = p i (suc n) || finally p (suc i) n

-- The formula that a thunk stands for at a position.
abbrev pub Meaning : Domain → Type 0
Meaning D = ℕ → D.Function → Bool → Formula D

module _ {D : Domain} (meaning : Meaning D) where
  -- The fuel bounds how deep thunks return thunks.
  unfoldable pub holds : ℕ → Formula D → ℕ → ℕ → Bool
  unfolding globally finally
  holds fuel (Formula.pure value pretty) i n = value
  holds zero (Formula.thunk function negated) i n = false
  holds (suc fuel) (Formula.thunk function negated) i n =
      holds fuel (meaning i function negated) i n
  holds fuel (Formula.and left right) i n = holds fuel left i n && holds fuel right i n
  holds fuel (Formula.or left right) i n = holds fuel left i n || holds fuel right i n
  holds fuel (Formula.implies left right) i n = not (holds fuel left i n) || holds fuel right i n
  holds fuel (Formula.next formula) i zero = true
  holds fuel (Formula.next formula) i (suc n) = holds fuel formula (suc i) n
  holds fuel (Formula.always formula bound) i n = globally (holds fuel formula) i n
  holds fuel (Formula.eventually formula bound) i n = finally (holds fuel formula) i n

  -- No operator has a time bound, and thunks nest at most `fuel` deep, at every position.
  abbrev pub Fits : ℕ → Formula D → Type 0
  Fits fuel (Formula.pure value pretty) = Unit
  Fits zero (Formula.thunk function negated) = ⊥
  Fits (suc fuel) (Formula.thunk function negated) =
      (i : ℕ) → Fits fuel (meaning i function negated)
  Fits fuel (Formula.and left right) = Fits fuel left × Fits fuel right
  Fits fuel (Formula.or left right) = Fits fuel left × Fits fuel right
  Fits fuel (Formula.implies left right) = Fits fuel left × Fits fuel right
  Fits fuel (Formula.next formula) = Fits fuel formula
  Fits fuel (Formula.always formula bound) = (bound ≡ none) × Fits fuel formula
  Fits fuel (Formula.eventually formula bound) = (bound ≡ none) × Fits fuel formula

  -- What a derivation says from position `i` on, where `n` states are left after it.
  unfoldable pub derived_holds : ℕ → Derived D → ℕ → ℕ → Bool
  unfolding holds
  derived_holds fuel (Derived.once start subformula) i n = holds fuel subformula i n
  derived_holds fuel (Derived.always start end subformula) i n =
      globally (holds fuel subformula) i n
  derived_holds fuel (Derived.eventually start end subformula) i n =
      finally (holds fuel subformula) i n

  abbrev pub leans : Leaning D → Bool
  leans assume_true = true
  leans (assume_false violation) = false

  -- What a residual says where `n` states are left to resume it at, the first of them at `i`.
  unfoldable pub residual_holds : ℕ → Residual D → ℕ → ℕ → Bool
  unfolding derived_holds
  residual_holds fuel (Residual.true_with state) i n = true
  residual_holds fuel (Residual.false_with violation) i n = false
  residual_holds fuel (Residual.derived derivation leaning) i zero = leans leaning
  residual_holds fuel (Residual.derived derivation leaning) i (suc n) =
      derived_holds fuel derivation i n
  residual_holds fuel (Residual.and left right) i n =
      residual_holds fuel left i n && residual_holds fuel right i n
  residual_holds fuel (Residual.or left right) i n =
      residual_holds fuel left i n || residual_holds fuel right i n
  residual_holds fuel (Residual.implies left_formula left right) i n =
      not (residual_holds fuel left i n) || residual_holds fuel right i n
  residual_holds fuel (Residual.or_eventually subformula start end left right) i n =
      residual_holds fuel left i n || residual_holds fuel right i n
  residual_holds fuel (Residual.and_always subformula start end onset left right) i n =
      residual_holds fuel left i n && residual_holds fuel right i n

  unfoldable pub value_holds : ℕ → Value D → ℕ → ℕ → Bool
  unfolding residual_holds
  value_holds fuel (Value.true_with state) i n = true
  value_holds fuel (Value.false_with violation continuation) i n = false
  value_holds fuel (Value.residual residual) i n = residual_holds fuel residual i n

  -- A derivation of a formula that fits, with the leaning that the evaluator gives it.
  abbrev pub DerivedFits : ℕ → Derived D → Leaning D → Type 0
  DerivedFits fuel (Derived.once start subformula) assume_true = Fits fuel subformula
  DerivedFits fuel (Derived.once start subformula) (assume_false violation) = ⊥
  DerivedFits fuel (Derived.always start end subformula) assume_true =
      (end ≡ none) × Fits fuel subformula
  DerivedFits fuel (Derived.always start end subformula) (assume_false violation) = ⊥
  DerivedFits fuel (Derived.eventually start end subformula) assume_true = ⊥
  DerivedFits fuel (Derived.eventually start end subformula) (assume_false violation) =
      (end ≡ none) × Fits fuel subformula

  abbrev pub ResidualFits : ℕ → Residual D → Type 0
  ResidualFits fuel (Residual.true_with state) = Unit
  ResidualFits fuel (Residual.false_with violation) = Unit
  ResidualFits fuel (Residual.derived derivation leaning) = DerivedFits fuel derivation leaning
  ResidualFits fuel (Residual.and left right) = ResidualFits fuel left × ResidualFits fuel right
  ResidualFits fuel (Residual.or left right) = ResidualFits fuel left × ResidualFits fuel right
  ResidualFits fuel (Residual.implies left_formula left right) =
      ResidualFits fuel left × ResidualFits fuel right
  ResidualFits fuel (Residual.or_eventually subformula start end left right) =
      (end ≡ none) × ResidualFits fuel left × ResidualFits fuel right
  ResidualFits fuel (Residual.and_always subformula start end onset left right) =
      (end ≡ none) × Fits fuel subformula × ResidualFits fuel left × ResidualFits fuel right

  abbrev pub OptionFits : ℕ → Option (Residual D) → Type 0
  OptionFits fuel none = Unit
  OptionFits fuel (some residual) = ResidualFits fuel residual

  abbrev pub ValueFits : ℕ → Value D → Type 0
  ValueFits fuel (Value.true_with state) = Unit
  ValueFits fuel (Value.false_with violation continuation) = OptionFits fuel continuation
  ValueFits fuel (Value.residual residual) = ResidualFits fuel residual
