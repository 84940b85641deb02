-- ===== src/Approvals.antt =====
-- Approval workflows: apps/api/src/approval-workflows.
pub mod Schema
pub mod Repository
pub mod Service
pub mod Lifecycle
pub mod History
pub mod Process
pub mod Ladder
pub mod Soundness
pub mod Completion
mod Tests
