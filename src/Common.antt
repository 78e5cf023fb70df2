-- ===== src/Common.antt =====
-- The shared types of crates/exg-common.
pub mod Types
pub mod Error
