-- ===== src/Ltl/Domain.antt =====
-- lib/bombadil-ltl/src/formula.rs: the traits `State` and `Domain`, which the logic is generic over.
-- The ordering of `Time` is the test `<`, the only one that the evaluator makes.
use bombadil.Common.{Bool}

pub record Domain : Type 1 where
  pub Function : Type 0
  pub Time : Type 0
  pub Duration : Type 0
  pub State : Type 0
  pub before : Time → Time → Bool
  pub add : Time → Duration → Time
  pub default : State
  pub merge : State → State → State
  pub is_empty : State → Bool

-- The domain `U` of `map_function`: the same but for the type of functions.
abbrev pub with_function : Domain → Type 0 → Domain
with_function D U = record D { Function = U }
