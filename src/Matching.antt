-- ===== src/Matching.antt =====
-- The matching engine, crates/exg-matching-engine: the order book and the matcher.
pub mod Book
pub mod Matcher
pub mod Quantities
pub mod Fills
pub mod Prices
pub mod Limits
pub mod Placement
pub mod View
mod Tests
