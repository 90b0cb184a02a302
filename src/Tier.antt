-- ===== src/Tier.antt =====
-- The hot and warm tiers of the serving state (loom-engine/src/pipeline/offline/state.rs, with
-- `update_fact_state` of db/facts.rs).
mod Rows
mod Moves
mod Budget
pub mod Eligible
pub mod Settled
pub mod Lowest
pub mod Hits
pub mod Enforce
pub mod Pinned
mod Tests
unfoldable pub use Rows.*
unfoldable pub use Moves.*
unfoldable pub use Budget.*
