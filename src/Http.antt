-- ===== src/Http.antt =====
-- The HTTP client of `src/net/netsimple.c`: the texts of a request and the requests themselves. A
-- pointer that may be NULL is an `Option`, and a buffer the list of the bytes in use.
pub mod Fields
pub mod Request
pub mod RequestText
pub mod Status
pub mod Bounds
pub mod Framing
pub mod Parsed
