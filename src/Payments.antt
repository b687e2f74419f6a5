-- ===== src/Payments.antt =====
-- The payments service (services/payments/cmd/server): wallets, holds, the log of transactions and
-- the outbox rows that its handlers write.
pub mod Types
pub mod Tx
pub mod Stores
pub mod Handlers
pub mod Spec
pub mod Refinement
pub mod Invariant
pub mod Queries
pub mod Service
pub mod Audit
pub mod HoldLife
pub mod Outcomes
pub mod Overlap
pub mod SeedTool
mod Tests
