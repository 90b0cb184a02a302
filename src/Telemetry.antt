-- ===== src/Telemetry.antt =====
-- The live telemetry of the engine (loom-engine/src/telemetry): the shared state with its rings,
-- and the sampler that writes it once a second.
mod State
mod Sampler
pub mod Rings
mod Tests
unfoldable pub use State.*
unfoldable pub use Sampler.*
