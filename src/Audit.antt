-- ===== src/Audit.antt =====
-- Package audit (server/internal/audit).
pub mod Event
pub mod Listing
