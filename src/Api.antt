-- ===== src/Api.antt =====
-- The HTTP interface (loom-engine/src/api): the check of the bearer token, and the dispatcher of
-- JSON-RPC calls.
mod Auth
mod Catalog
mod Rpc
pub mod Token
pub mod Replies
pub mod Runs
mod Tests
unfoldable pub use Auth.*
unfoldable pub use Rpc.*
