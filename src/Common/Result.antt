-- ===== src/Common/Result.antt =====
-- Results, for the code that fails without a state.
use mathlib.Core.Path.{◌≡◌, refl}

-- The error type is the last argument, as in Rust.
pub data Result {ℓ κ} (Value : Type ℓ) (Error : Type κ) : Type (ℓ ⊔ κ) where
  err : Error → Result Value Error
  ok : Value → Result Value Error

module _ {ℓ κ μ} {Value : Type ℓ} {Other : Type μ} {Error : Type κ} where
  infixl 5 ◌>>=◌ ◌>>◌
  -- The operator `?` of Rust, before the rest of the body.
  abbrev pub ◌>>=◌ : Result Value Error → (Value → Result Other Error) → Result Other Error
  err e >>= rest = err e
  ok v >>= rest = rest v

  abbrev pub ◌>>◌ : Result Value Error → Result Other Error → Result Other Error
  first >> rest = first >>= λ _. rest

  -- Where a body succeeds, the step before its rest did.
  pub step_succeeds :
      {rest : Value → Result Other Error} {w : Other} (first : Result Value Error)
      → (first >>= rest) ≡ ok w
      → (v : Value) × (first ≡ ok v) × (rest v ≡ ok w)
  step_succeeds (err e) h = cc
  step_succeeds (ok v) h = (v, refl, h)
