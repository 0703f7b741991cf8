-- ===== src/Durable.antt =====
-- Durable requests: src/app/durable and src/common/prisma/transaction.util.ts.
pub mod Transaction
pub mod Idempotency
pub mod Replay
mod Tests
