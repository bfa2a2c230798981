-- ===== src/Go.antt =====
-- What the program uses of Go's language and standard library.
pub mod Int64
pub mod Float64
pub mod Time
pub mod Fmt
