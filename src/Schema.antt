-- ===== src/Schema.antt =====
-- lib/bombadil-schema/src: what the parts of the program say of a test, in times, snapshots and
-- violations.
pub mod Time
pub mod Types
pub mod Agree
mod Tests
