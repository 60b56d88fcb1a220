-- ===== src/Runner.antt =====
-- lib/bombadil/src/runner.rs: the loop that drives a test, and what it uses of url.rs, browser/actions.rs
-- and specification/js.rs.
pub mod Action
pub mod Apply
pub mod Outcome
pub mod Sends
pub mod Url
pub mod Loop
pub mod Timeouts
pub mod Journal
pub mod Progress
mod Tests
