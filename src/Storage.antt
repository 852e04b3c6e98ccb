-- ===== src/Storage.antt =====
-- Package storage (server/internal/storage).
pub mod Utf8
pub mod Path
pub mod Disk
pub mod Manager
pub mod Repair
