-- ===== src/Tests.antt =====
-- The theorems at concrete inputs, and the data that they are tried on.
pub mod Values
pub mod Client
pub mod Slashing
pub mod Proposals
pub mod Analysis
pub mod Redelegations
pub mod Discovery
pub mod Configured
pub mod Searches
pub mod Cycle
pub mod Snapshots
pub mod Gauges
pub mod Concentration
pub mod Loops
pub mod Managed
pub mod Scrapes
pub mod Runs
pub mod Registered
