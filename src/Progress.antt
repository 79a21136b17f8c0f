-- ===== src/Progress.antt =====
-- The records of the progress store, `src/progress/progress_store.c`.
pub mod Record
pub mod Canonical
pub mod Unique
pub mod Store
pub mod Again
pub mod Cut
