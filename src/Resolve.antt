-- ===== src/Resolve.antt =====
-- Entities and their resolution: the rows, the queries on them, the three passes, and the
-- orchestration (loom-engine/src/pipeline/offline/resolve.rs, db/entities.rs, types/entity.rs).
mod Rows
mod Queries
mod Updates
mod Passes
mod Run
pub mod Unique
pub mod Matches
pub mod Meaning
pub mod Total
pub mod Refused
mod Tests
unfoldable pub use Rows.*
unfoldable pub use Queries.*
unfoldable pub use Updates.*
unfoldable pub use Passes.*
unfoldable pub use Run.*
