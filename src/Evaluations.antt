-- ===== src/Evaluations.antt =====
-- Bid evaluations, rankings and awards: apps/api/src/bid-evaluations.
pub mod Repository
pub mod Service
pub mod Rankings
pub mod Order
pub mod Averages
mod Tests
pub mod Writes
