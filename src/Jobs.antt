-- ===== src/Jobs.antt =====
-- The jobs service (services/jobs-api/cmd/server): jobs, profiles of freelancers with their skills,
-- and the outbox rows that its handlers write.
pub mod Types
pub mod Tx
pub mod Stores
pub mod Handlers
pub mod Spec
pub mod Service
pub mod Refinement
pub mod Invariant
pub mod System
pub mod Outcomes
mod Tests
