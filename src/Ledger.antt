-- ===== src/Ledger.antt =====
-- The double-entry ledger of crates/exg-ledger.
pub mod State
pub mod Funds
pub mod Positions
pub mod Settlement
pub mod Audit
pub mod Sums
pub mod Rules
pub mod Calls
pub mod Conservation
pub mod Retry
pub mod Records
pub mod Replay
mod Tests
