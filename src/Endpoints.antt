-- ===== src/Endpoints.antt =====
-- The package endpoints: discovery, health probes, and the choice among them.
pub mod Registry
pub mod Probe
pub mod Resolver
pub mod Choice
pub mod Requests
