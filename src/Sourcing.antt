-- ===== src/Sourcing.antt =====
-- What the sourcing services share: requests for quotation, bids, evaluations and awards.
pub mod Schema
pub mod Lookup
pub mod Process
pub mod Soundness
pub mod RfqSteps
pub mod BidSteps
pub mod Invariant
pub mod Runs
pub mod Guarantees
mod Tests
