-- ===== src/Clearing.antt =====
-- Clearing, crates/exg-clearing: positions, and the money that follows the fills.
pub mod Book
pub mod PostTrade
pub mod Tick
pub mod Log
pub mod Projection
pub mod Survival
pub mod Batches
pub mod Settled
pub mod Live
pub mod Lockstep
mod Tests
pub mod Monitor
pub mod Grouping
pub mod Verdicts
pub mod Asking
pub mod Scan
