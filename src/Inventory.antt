-- ===== src/Inventory.antt =====
-- Stock: src/app/inventory.
pub mod Stock
pub mod Movement
pub mod Reservations
pub mod Totals
pub mod Sound
pub mod Consumption
pub mod Held
pub mod Portions
pub mod Consumed
pub mod Ledger
pub mod Costing
mod Tests
