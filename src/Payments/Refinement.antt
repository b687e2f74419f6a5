-- ===== src/Payments/Refinement.antt =====
-- The handlers of handler.go against the steps of Payments/Spec.
pub mod Commit
pub mod Hold
pub mod Release
pub mod Transfer
pub mod Holds
