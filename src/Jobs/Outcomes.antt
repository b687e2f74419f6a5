-- ===== src/Jobs/Outcomes.antt =====
-- What the handlers of job_handler.go and profile_handler.go answer.
pub mod Acceptance
pub mod Skills
pub mod Reads
pub mod Pages
