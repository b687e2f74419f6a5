-- ===== src/Contracts/Refinement.antt =====
-- The saga (saga.go) against Contracts/Spec.
pub mod Rows
pub mod Compensation
pub mod Methods
