-- ===== src/Tests.antt =====
-- Runs of the modelled code at concrete inputs, and the theorems applied to such inputs.
pub mod Paths
pub mod Codecs
pub mod Names
pub mod Queries
pub mod Emitters
pub mod Targets
pub mod Traces
pub mod Blocks
pub mod Messages
pub mod Params
pub mod Fetched
