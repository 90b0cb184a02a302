-- ===== src/Predicate.antt =====
-- Predicates: the registry with its packs and candidates, and the tracking of the predicates that
-- an extraction uses (loom-engine/src/db/predicates.rs, types/predicate.rs,
-- pipeline/offline/extract.rs).
mod Registry
mod Track
mod Prompt
mod Usage
mod Occurrences
mod Step
pub mod Counts
pub mod Groups
mod Tests
unfoldable pub use Registry.*
unfoldable pub use Track.*
unfoldable pub use Prompt.*
