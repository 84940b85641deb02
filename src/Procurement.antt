-- ===== src/Procurement.antt =====
-- Procurement requests: apps/api/src/procurement.
pub mod Repository
pub mod Service
pub mod Submission
pub mod Writes
pub mod Decisions
pub mod Refinement
pub mod Completion
mod Tests
