-- ===== src/Tickets.antt =====
-- Tickets: balances, their ledger and store purchases.
pub mod Types
pub mod Service
pub mod Purchases
pub mod Ledger
pub mod Balanced
pub mod Refunds
pub mod Sales
pub mod Races
pub mod Run
pub mod Charges
pub mod Grants
mod Tests
