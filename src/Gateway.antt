-- ===== src/Gateway.antt =====
-- gateway/: the deterministic pre-trade gateway.
pub mod Request
pub mod Gates
pub mod Validate
pub mod Codes
pub mod Approval
pub mod Decision
pub mod Faults
pub mod Rejection
pub mod OrderRouting
pub mod BrokerSubmission
pub mod Reconciliation
