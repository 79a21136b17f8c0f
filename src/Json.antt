-- ===== src/Json.antt =====
-- The JSON writer and reader of `src/sync/kosync.c`. A reader is what is left of its input, and a
-- writer what it has written, with its capacity; a step that returns 0 is `none`.
pub mod Writer
pub mod Written
pub mod Reader
pub mod Number
pub mod Doubles
pub mod Halves
pub mod Escapes
pub mod Failures
pub mod Strings
pub mod Percentages
pub mod Object
pub mod Serialize
pub mod Members
pub mod Readable
pub mod RoundTrip
