-- ===== src/Transport.antt =====
-- The crate pax-transport: the backend interface, its values, and the in-memory backend.
pub mod Error
pub mod Pairing
pub mod Transfer
pub mod Retry
pub mod Backend
pub mod Mock
pub mod Radio
pub mod Btleplug
pub mod Bluez
pub mod Ios
pub mod Android
pub mod Obex
