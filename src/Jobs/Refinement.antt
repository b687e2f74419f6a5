-- ===== src/Jobs/Refinement.antt =====
-- The handlers of job_handler.go and profile_handler.go against the steps of Jobs/Spec.
pub mod Commit
pub mod Rows
pub mod Skills
pub mod Requests
pub mod Keeping
