-- ===== src/Bundler.antt =====
-- lib/bombadil/src/specification/bundler/mod.rs: the modules of a specification in one script. The
-- libraries that parse, rewrite and print JavaScript, and the files, are parameters.
pub mod Keys
pub mod Modules
pub mod Closed
pub mod Queue
pub mod Script
pub mod Processed
pub mod Complete
mod Tests
