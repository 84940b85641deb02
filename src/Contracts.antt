-- ===== src/Contracts.antt =====
-- Contracts with their versions: apps/api/src/contracts.
pub mod Schema
pub mod Dto
pub mod Repository
pub mod Service
pub mod Versions
pub mod Validity
pub mod Changes
pub mod History
mod Tests
