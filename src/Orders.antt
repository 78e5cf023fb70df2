-- ===== src/Orders.antt =====
-- The order service, crates/exg-order-service.
pub mod Record
pub mod Service
pub mod Events
pub mod Lookups
pub mod Repeats
pub mod Index
pub mod Moving
pub mod Adding
pub mod Consistent
pub mod Applying
pub mod Closing
pub mod Selection
pub mod Canceling
pub mod Reachable
pub mod Snapshot
pub mod Restoring
pub mod Everywhere
pub mod Accounting
pub mod Accounts
mod Tests
