-- ===== src/Contracts.antt =====
-- The contracts service (services/contracts/cmd/server): contracts, their milestones and the outbox,
-- and the saga that moves a contract through its life together with the payments service.
pub mod Types
pub mod Stores
pub mod Saga
pub mod Spec
pub mod Refinement
pub mod Service
pub mod Life
pub mod Escrow
pub mod Consistency
pub mod Client
pub mod History
pub mod Publisher
pub mod Working
pub mod Hearing
pub mod Retry
pub mod Milestones
pub mod Listing
pub mod Api
mod Tests
