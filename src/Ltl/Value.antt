-- ===== src/Ltl/Value.antt =====
-- lib/bombadil-ltl/src/eval.rs: what evaluation gives, and what is left to evaluate later.
use bombadil.Common.{Option}
use bombadil.Ltl.Domain.{Domain}
use bombadil.Ltl.Formula.{Formula}
use bombadil.Ltl.Violation.{Violation}

pub data Leaning (D : Domain) : Type 0 where
  assume_true : Leaning D
  assume_false : Violation D → Leaning D

-- `start`, then `end` where the source has one, then the subformula.
pub data Derived (D : Domain) : Type 0 where
  once : D.Time → Formula D → Derived D
  always eventually : D.Time → Option D.Time → Formula D → Derived D

-- `or_eventually subformula start end left right`, and
-- `and_always subformula start end onset left right`.
pub data Residual (D : Domain) : Type 0 where
  true_with : D.State → Residual D
  false_with : Violation D → Residual D
  derived : Derived D → Leaning D → Residual D
  and or : Residual D → Residual D → Residual D
  implies : Formula D → Residual D → Residual D → Residual D
  or_eventually : Formula D → D.Time → Option D.Time → Residual D → Residual D → Residual D
  and_always : Formula D → D.Time → Option D.Time → D.Time → Residual D → Residual D → Residual D

pub data Value (D : Domain) : Type 0 where
  true_with : D.State → Value D
  false_with : Violation D → Option (Residual D) → Value D
  residual : Residual D → Value D
