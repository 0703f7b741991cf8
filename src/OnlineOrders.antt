-- ===== src/OnlineOrders.antt =====
-- Online orders: src/app/online-orders.
pub mod Pickup
mod Tests
