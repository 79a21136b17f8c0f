-- ===== src/Examples.antt =====
-- Runs of the code on fixed inputs, and the theorems at inputs that meet their hypotheses.
pub mod Hashes
pub mod Identities
pub mod Texts
pub mod Policies
pub mod Runs
pub mod Times
pub mod Codes
pub mod Progresses
pub mod Servers
pub mod Stores
pub mod Comparisons
pub mod Uploads
