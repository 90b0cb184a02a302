-- ===== src/Fact.antt =====
-- Facts and knowledge summaries (loom-engine/src/types/fact.rs, db/facts.rs, types/summary.rs,
-- db/entities.rs) and the supersession of contradicted facts (pipeline/offline/supersede.rs).
mod Rows
mod Queries
mod Resolve
pub mod Supersede
pub mod Batch
mod Tests
unfoldable pub use Rows.*
unfoldable pub use Queries.*
unfoldable pub use Resolve.*
