-- ===== src/Files.antt =====
-- Package files (server/internal/files).
pub mod Consistency
pub mod Moved
pub mod Served
pub mod Progress
pub mod Index
pub mod Trash
pub mod Subtree
pub mod Repository
pub mod Reindex
pub mod Pages
pub mod Agreement
pub mod Service
