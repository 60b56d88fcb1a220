-- ===== src/Browser.antt =====
-- lib/bombadil/src/browser.rs: the state machine that follows the page.
pub mod Protocol
pub mod Capture
pub mod Machine
pub mod Moves
pub mod Handlers
pub mod Events
pub mod Cycle
pub mod Watchdog
pub mod Total
mod Tests
pub mod Unhandled
