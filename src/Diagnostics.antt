-- ===== src/Diagnostics.antt =====
-- The crate pax-diagnostics: recording an event stream and slicing it.
pub mod Recorder
pub mod Metrics
pub mod Analyze
mod Tests
