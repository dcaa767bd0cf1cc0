-- ===== src/Client.antt =====
-- collector/rotator.go: the ranked endpoints of one protocol, and a query that tries them in turn.
pub mod Rotator
pub mod Selection
pub mod Fetch
pub mod Retries
