-- ===== src/Bff.antt =====
-- The backends for frontends: the shared library pkg/bff (authentication, roles, the rate limiter,
-- and requests to the services) and the three servers services/bff/{admin,client,freelancer}.
pub mod Types
pub mod Auth
pub mod Login
pub mod Limiter
pub mod Client
pub mod Servers
pub mod Tokens
mod Tests
