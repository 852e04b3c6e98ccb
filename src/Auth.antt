-- ===== src/Auth.antt =====
-- Package auth (server/internal/auth).
pub mod Model
pub mod Limiter
pub mod Library
pub mod Policy
pub mod Token
pub mod Repository
pub mod Password
pub mod Service
pub mod Authentication
pub mod Login
pub mod Hashing
pub mod Revocation
