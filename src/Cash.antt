-- ===== src/Cash.antt =====
-- Cash control: src/app/cashier-shifts. One module for the tables, then one per service, each
-- with its laws below it.
pub mod Types
pub mod Access
pub mod Ledger
pub mod Handovers
pub mod Shifts
pub mod Funds
mod Tests
