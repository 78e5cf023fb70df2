-- ===== src/Engine.antt =====
-- The matching engine of a symbol, crates/exg-matching-engine/src/engine.rs.
pub mod Messages
pub mod State
pub mod Trades
pub mod Entry
pub mod Accept
pub mod Cancel
pub mod Amend
pub mod Stops
pub mod Expiry
pub mod Commands
pub mod Extraction
pub mod Frames
pub mod Numbering
pub mod TradeIds
pub mod Handlers
pub mod Runs
pub mod Conditions
pub mod Triggers
pub mod Sweeping
pub mod Refusals
pub mod Cancels
pub mod Replay
pub mod Replays
pub mod CancelReplays
pub mod Funding
mod Tests
