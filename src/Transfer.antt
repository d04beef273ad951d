-- ===== src/Transfer.antt =====
-- The crate pax-transfer: uploads with retries, and progress reports.
pub mod Upload
pub mod Progress
mod Tests
