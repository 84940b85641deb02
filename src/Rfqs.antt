-- ===== src/Rfqs.antt =====
-- Requests for quotation: apps/api/src/rfqs.
pub mod Repository
pub mod Service
pub mod Writes
