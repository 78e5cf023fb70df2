-- ===== src/Risk.antt =====
-- The risk engine, crates/exg-risk-engine.
pub mod Types
pub mod Funding
pub mod Margin
pub mod PreTrade
pub mod Adl
pub mod Ranking
pub mod Rates
mod Tests
