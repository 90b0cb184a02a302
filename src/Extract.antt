-- ===== src/Extract.antt =====
-- The extraction of facts from an episode: the check of namespaces
-- (loom-engine/src/pipeline/online/namespace.rs) and the loop that inserts the facts
-- (pipeline/offline/extract.rs, db/facts.rs).
mod Namespace
mod Insert
pub mod Again
pub mod Scoped
mod Tests
unfoldable pub use Namespace.*
unfoldable pub use Insert.*
