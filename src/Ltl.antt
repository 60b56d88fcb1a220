-- ===== src/Ltl.antt =====
-- lib/bombadil-ltl/src: the temporal logic that properties are written in, and its evaluator.
pub mod Domain
pub mod Formula
pub mod Syntax
pub mod Violation
pub mod Value
pub mod Combine
pub mod Attach
pub mod Eval
pub mod Stop
pub mod Violations
pub mod Semantics
mod Tests
