-- ===== src/Redelegation.antt =====
-- Redelegations: collector/redelegation_query.go and collector/redelegation.go.
pub mod Event
pub mod Search
pub mod Scanner
pub mod Threshold
pub mod Publish
pub mod Found
pub mod Window
pub mod Incremental
pub mod Crossing
