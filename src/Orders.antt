-- ===== src/Orders.antt =====
-- orders: table sessions, their order lines, and the moves of lines between tables.
pub mod Unique
pub mod Selection
pub mod Types
pub mod Policy
pub mod Seating
pub mod Closing
pub mod Split
pub mod Seated
pub mod Floor
pub mod History
mod Tests
pub mod Pickup
pub mod Kitchen
pub mod Adding
pub mod Serving
pub mod Lines
