-- ===== src/Ltl/Formula.antt =====
-- lib/bombadil-ltl/src/formula.rs: formulas in negation normal form, up to thunks.
use bombadil.Common.{Bool, String, Option}
use bombadil.Ltl.Domain.{Domain, with_function}

pub data Formula (D : Domain) : Type 0 where
  pure : Bool → String → Formula D
  thunk : D.Function → Bool → Formula D
  and or implies : Formula D → Formula D → Formula D
  next : Formula D → Formula D
  always eventually : Formula D → Option D.Duration → Formula D

unfoldable pub map_function_ref :
    {D : Domain} {U : Type 0} (f : D.Function → U) → Formula D → Formula (with_function D U)
map_function_ref f (pure value pretty) = pure value pretty
map_function_ref f (thunk function negated) = thunk (f function) negated
map_function_ref f (and left right) = and (map_function_ref f left) (map_function_ref f right)
map_function_ref f (or left right) = or (map_function_ref f left) (map_function_ref f right)
map_function_ref f (implies left right) =
    implies (map_function_ref f left) (map_function_ref f right)
map_function_ref f (next formula) = next (map_function_ref f formula)
map_function_ref f (always formula bound) = always (map_function_ref f formula) bound
map_function_ref f (eventually formula bound) = eventually (map_function_ref f formula) bound
