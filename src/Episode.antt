-- ===== src/Episode.antt =====
-- Episodes (loom-engine/src/types/episode.rs, db/episodes.rs): the row type of `loom_episodes`,
-- and the queries of its processing lifecycle over a table of such rows. A query takes the time of
-- the statement where it calls NOW(), and returns its result with the table after it. Times are
-- whole microseconds. The CHECK constraint on `processing_status` makes it a type of four values.
mod Rows
mod Lifecycle
pub mod Worker
pub mod Turn
pub mod Exclusive
pub mod Backoff
pub mod Retry
pub mod Truncate
mod Tests
unfoldable pub use Rows.*
unfoldable pub use Lifecycle.*
