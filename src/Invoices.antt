-- ===== src/Invoices.antt =====
-- Invoices: apps/api/src/invoices.
pub mod Repository
pub mod Amounts
pub mod Matching
pub mod Service
pub mod Agreement
pub mod Updates
pub mod Matches
pub mod Lifecycle
pub mod Writes
pub mod History
pub mod Totals
pub mod Creation
pub mod Effects
mod Tests
