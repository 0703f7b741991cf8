-- ===== src/Promotions.antt =====
-- Promotions: src/app/promotions.
pub mod Policy
pub mod Calculator
pub mod Service
pub mod Lawful
pub mod Runs
mod Tests
