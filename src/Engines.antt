-- ===== src/Engines.antt =====
-- src/netops_autopilot/engines: the deterministic engines of the change pipeline.
pub mod Driver
pub mod Capability
pub mod Rollback
pub mod Recovery
pub mod Autonomy
pub mod ConfigIr
pub mod DependencyDag
pub mod BlastRadius
pub mod Change
pub mod FailureOrchestrator
pub mod Cleanup
pub mod Verification
