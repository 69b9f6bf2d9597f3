-- ===== src/Fsm.antt =====
-- src/netops_autopilot/fsm: the guarded FSM runtime, the evidence helpers and the five machines.
pub mod Evidence
pub mod Runtime
pub mod Change
pub mod Rollback
pub mod Device
pub mod Link
pub mod Recovery
