-- ===== src/Ledger.antt =====
-- src/netops_autopilot/ledger: the records of the evidence ledger and its store.
pub mod Models
pub mod Recorder
pub mod ClaimVerifier
