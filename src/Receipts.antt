-- ===== src/Receipts.antt =====
-- Goods receipts: apps/api/src/goods-receipts.
pub mod Repository
pub mod Service
pub mod Progress
pub mod Cumulative
pub mod Lines
pub mod Checks
pub mod ReceiveWrites
pub mod Quantities
pub mod StatusWrites
pub mod Deliveries
pub mod OrderHistory
mod Tests
