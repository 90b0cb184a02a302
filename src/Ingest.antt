-- ===== src/Ingest.antt =====
-- The ingestion of episodes (loom-engine/src/pipeline/offline/ingest.rs, types/ingestion.rs, and
-- `insert_episode` of db/episodes.rs).
mod Mode
mod Input
mod Insert
pub mod Idempotent
pub mod Race
pub mod Blank
mod Tests
unfoldable pub use Mode.*
unfoldable pub use Input.*
unfoldable pub use Insert.*
