-- ===== src/Orders.antt =====
-- Purchase orders: apps/api/src/purchase-orders.
pub mod Repository
pub mod Service
pub mod Lifecycle
pub mod History
pub mod Creation
pub mod Effects
mod Tests
