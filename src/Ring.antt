-- ===== src/Ring.antt =====
-- The ring buffer between two threads, crates/exg-ringbuffer.
pub mod Buffer
pub mod Fifo
pub mod Setup
mod Tests
