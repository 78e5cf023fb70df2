-- ===== src/Wal.antt =====
-- The write-ahead log, crates/exg-wal.
pub mod Record
pub mod Coding
pub mod Writer
pub mod Scanning
pub mod Opening
pub mod Durable
pub mod Appending
pub mod Cuts
pub mod Reopening
pub mod Crash
pub mod Reader
pub mod Delivery
pub mod Framing
mod Tests
