-- ===== src/Bids.antt =====
-- Bids of vendors: apps/api/src/bids.
pub mod Repository
pub mod Service
pub mod Writes
pub mod Items
