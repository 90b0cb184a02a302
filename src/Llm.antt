-- ===== src/Llm.antt =====
-- The client of the language models and the classification of queries
-- (loom-engine/src/llm/client.rs, llm/classification.rs, pipeline/online/classify.rs).
mod Types
mod Post
mod Client
pub mod Classify
pub mod Chosen
pub mod Retries
pub mod Fallback
mod Tests
unfoldable pub use Types.*
unfoldable pub use Post.*
unfoldable pub use Client.*
