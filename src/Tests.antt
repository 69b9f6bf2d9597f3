-- ===== src/Tests.antt =====
-- The theorems applied to concrete inputs.
mod Samples
mod Runtime
mod Machines
mod Entities
mod Engines
mod Cleanup
mod Services
mod Ledger
mod Drivers
mod Changes
mod Plans
