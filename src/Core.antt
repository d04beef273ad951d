-- ===== src/Core.antt =====
-- The crate pax-core: the value types that all other crates share.
pub mod Error
pub mod Address
pub mod Time
pub mod Spec
pub mod Standards
pub mod Hardware
pub mod Device
pub mod Uuid
pub mod Peer
pub mod Event
pub mod Observe
