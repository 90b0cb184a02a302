-- ===== src/Online.antt =====
-- The online pipeline (loom-engine/src/pipeline/online): from the task class of a query to the
-- retrieval profiles, the candidates that they return, their weights and ranks, and the package.
mod Types
pub mod Float
mod Scores
pub mod Profiles
pub mod Retrieve
pub mod Best
pub mod Weight
pub mod Rank
pub mod Compile
pub mod Package
pub mod Fixed
mod Tests
unfoldable pub use Types.*
unfoldable pub use Float.*
