-- ===== src/Ledger/Conservation.antt =====
-- The books of the ledger: the sum of all balances and the net of deposits and withdrawals.
pub mod Funds
pub mod Positions
pub mod Settlement
pub mod Global
pub mod Runs
pub mod Settled
