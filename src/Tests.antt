-- ===== src/Tests.antt =====
-- The development's definitions on concrete inputs.
pub mod Samples
pub mod Volume
pub mod Transfers
pub mod Publishing
pub mod Creating
pub mod Limiting
pub mod Orphaned
pub mod Filing
pub mod Settled
pub mod Paging
pub mod Serving
pub mod Progress
pub mod Access
pub mod Auditing
pub mod Sessions
pub mod Ended
pub mod Rebuilding
