-- ===== src/Sync.antt =====
-- One synchronisation of the current book: the composition of `src/sync/kosync_sync.c` and the product
-- policy of `src/sync/kosync_policy.c` that reads its result.
pub mod Types
pub mod Upload
pub mod Once
pub mod Run
pub mod Policy
