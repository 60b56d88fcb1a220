-- ===== src/Cli.antt =====
-- lib/bombadil-cli/src: the observer of a test and how the program ends (main.rs), durations as
-- options (duration.rs), printed actions (render.rs), and the summary of a test (main.rs).
pub mod Observer
pub mod Through
pub mod Counts
pub mod Durations
pub mod Render
pub mod Heading
mod Tests
