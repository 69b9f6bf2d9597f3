-- ===== src/Core.antt =====
-- src/netops_autopilot/core: failures, counters, the cache and the time authority.
pub mod Failures
pub mod Counters
pub mod Cache
pub mod TimeAuth
