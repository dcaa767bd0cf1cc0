-- ===== src/Go.antt =====
-- What the collector uses of Go's standard library.
pub mod Text
pub mod Number
pub mod Time
pub mod Duration
