-- ===== src/Ltl/Semantics/Says.antt =====
-- What it is for a value to say something of the states that follow.
use bombadil.Common.{ℕ, suc, Bool, ◌≡◌}
use bombadil.Ltl.Domain.{Domain}
use bombadil.Ltl.Value.{Value}
use bombadil.Ltl.Semantics.{Meaning, value_holds, ValueFits}

module _ {D : Domain} (meaning : Meaning D) (fuel : ℕ) where
  -- The value is fit for going on, and says `q n` where `n` states are left after position `i`.
  abbrev pub Says : Value D → ℕ → (ℕ → Bool) → Type 0
  Says v i q = ValueFits meaning fuel v × ((n : ℕ) → value_holds meaning fuel v (suc i) n ≡ q n)
