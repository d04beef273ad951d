-- ===== src/Pairing.antt =====
-- The crate pax-pairing: ready-made agents and the retrying workflows.
pub mod Agents
pub mod Device
pub mod Batch
mod Tests
