-- ===== src/Core.antt =====
-- crates/rgk-core: canonical bytes, chain ids, receipt policies, the typed statements that cross the
-- asset / Kaspa boundary, and their commitments.
pub mod Modes
pub mod Error
pub mod Bytes
pub mod Encoding
pub mod Chain
pub mod Policy
pub mod Types
pub mod Commit
