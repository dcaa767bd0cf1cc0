-- ===== src/Collector.antt =====
-- Parts of collector/collector.go: how a cycle points its clients at healthy nodes, and when the next
-- cycle starts.
pub mod Resolving
pub mod Schedule
pub mod Concentration
pub mod Signing
pub mod State
pub mod Stages
pub mod Snapshot
pub mod Scraped
pub mod Metrics
pub mod Loops
pub mod New
pub mod Run
