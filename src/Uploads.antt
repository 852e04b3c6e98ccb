-- ===== src/Uploads.antt =====
-- Package uploads (server/internal/uploads).
pub mod Model
pub mod Chunks
pub mod Repository
pub mod Service
pub mod Orphans
