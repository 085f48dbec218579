-- ===== src/Examples.antt =====
-- The theorems at concrete inputs.
pub mod Guards
pub mod Frames
pub mod Paths
pub mod Intents
pub mod Services
pub mod Plans
pub mod Sessions
pub mod Settled
pub mod Runs
pub mod Owners
pub mod Helpers
