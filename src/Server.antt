-- ===== src/Server.antt =====
-- The client of the KOSync server in `src/sync/kosync.c`: its address, its three requests and the
-- comparison of the positions.
pub mod Url
pub mod Requests
pub mod Ready
pub mod Fits
pub mod Answered
pub mod Delivered
pub mod Checked
pub mod Upload
pub mod Acknowledged
pub mod Address
pub mod Compare
