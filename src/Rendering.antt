-- ===== src/Rendering.antt =====
-- How a violation is shown: as markup (lib/bombadil-schema/src/markup.rs), and that as text for a
-- terminal (lib/bombadil/src/styled.rs).
pub mod Markup
pub mod Violations
pub mod Shown
pub mod Reported
pub mod Json
pub mod Styled
pub mod Lines
pub mod Inline
pub mod Depth
mod Tests
