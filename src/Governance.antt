-- ===== src/Governance.antt =====
-- Governance: collector/proposal_scan.go, collector/governance.go, collector/proposal_veto.go and
-- the part of collector/collector.go that remembers proposals.
pub mod Proposal
pub mod Scan
pub mod Walk
pub mod Adding
pub mod Listing
pub mod Aging
pub mod Walking
pub mod Answering
pub mod Newest
pub mod Memory
pub mod Hidden
pub mod Vote
pub mod Veto
pub mod Sums
pub mod Capability
pub mod Analysis
pub mod Attribution
pub mod Independence
pub mod Gauges
pub mod Publish
