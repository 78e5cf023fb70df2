-- ===== src/Ids.antt =====
-- Identifiers, crates/exg-common/src/ids.rs: the generator of ids and its threads.
pub mod Snowflake
pub mod Order
pub mod Threads
pub mod Clock
mod Tests
