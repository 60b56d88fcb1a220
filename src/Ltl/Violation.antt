-- ===== src/Ltl/Violation.antt =====
-- lib/bombadil-ltl/src/violation.rs: why a formula is false.
use bombadil.Common.{String, Option}
use bombadil.Ltl.Domain.{Domain, with_function}
use bombadil.Ltl.Formula
use bombadil.Ltl.Formula.{Formula}

pub data EventuallyViolation (T : Type 0) : Type 0 where
  timed_out : T → EventuallyViolation T
  test_ended : EventuallyViolation T

-- `always violation subformula start end time`.
pub data Violation (D : Domain) : Type 0 where
  false_at : D.Time → String → D.State → Violation D
  eventually : Formula D → EventuallyViolation D.Time → Violation D
  always : Violation D → Formula D → D.Time → Option D.Time → D.Time → Violation D
  and or : Violation D → Violation D → Violation D
  implies : Formula D → Violation D → D.State → Violation D

unfoldable pub map_function_ref :
    {D : Domain} {U : Type 0} (f : D.Function → U) → Violation D → Violation (with_function D U)
map_function_ref f (false_at time condition state) = false_at time condition state
map_function_ref f (eventually subformula reason) =
    eventually (Formula.map_function_ref f subformula) reason
map_function_ref f (always violation subformula start end time) =
    always (map_function_ref f violation) (Formula.map_function_ref f subformula) start end time
map_function_ref f (and left right) = and (map_function_ref f left) (map_function_ref f right)
map_function_ref f (or left right) = or (map_function_ref f left) (map_function_ref f right)
map_function_ref f (implies left right state) =
    implies (Formula.map_function_ref f left) (map_function_ref f right) state
