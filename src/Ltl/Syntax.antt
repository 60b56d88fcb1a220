-- ===== src/Ltl/Syntax.antt =====
-- lib/bombadil-ltl/src/syntax.rs: formulas as they are written, and their negation normal form.
use bombadil.Common.{Bool, true, false, not as negate, String, Option, if◌then◌else◌}
use bombadil.Ltl.Domain.{Domain}
use bombadil.Ltl.Formula.{Formula}

pub data Syntax (D : Domain) : Type 0 where
  pure : Bool → String → Syntax D
  thunk : D.Function → Syntax D
  not : Syntax D → Syntax D
  and or implies : Syntax D → Syntax D → Syntax D
  next : Syntax D → Syntax D
  always eventually : Syntax D → Option D.Duration → Syntax D

-- The inner function `go` of `nnf`.
unfoldable pub go : {D : Domain} → Syntax D → Bool → Formula D
go (Syntax.pure value pretty) negated =
    Formula.pure (if negated then negate value else value) pretty
go (Syntax.thunk function) negated = Formula.thunk function negated
go (Syntax.not syntax) negated = go syntax (negate negated)
go (Syntax.and left right) true = Formula.or (go left true) (go right true)
go (Syntax.and left right) false = Formula.and (go left false) (go right false)
go (Syntax.or left right) true = Formula.and (go left true) (go right true)
go (Syntax.or left right) false = Formula.or (go left false) (go right false)
go (Syntax.implies left right) true = Formula.and (go left false) (go right true)
go (Syntax.implies left right) false = Formula.implies (go left false) (go right false)
go (Syntax.next sub) negated = Formula.next (go sub negated)
go (Syntax.always sub bound) true = Formula.eventually (go sub true) bound
go (Syntax.always sub bound) false = Formula.always (go sub false) bound
go (Syntax.eventually sub bound) true = Formula.always (go sub true) bound
go (Syntax.eventually sub bound) false = Formula.eventually (go sub false) bound

unfoldable pub nnf : {D : Domain} → Syntax D → Formula D
unfolding go
nnf syntax = go syntax false
