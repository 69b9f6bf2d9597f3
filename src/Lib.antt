-- ===== src/Lib.antt =====
-- The deterministic core of NetOps Autopilot: guarded state machines, the records that they leave,
-- the T5 counters, and the engines that decide on a change and on its failure.
--
-- The program plans, gates, applies and verifies changes to a network. A change, a rollback, a
-- device, a link and a recovery each live in a state machine: a table of transitions, each with a
-- guard that reads an evidence context. `fire` is the only way to move a machine: it looks the
-- pair up, asks the guard, writes the state and appends a transition record to the evidence
-- ledger; an attempt without a table entry is counted as `gate_bypass`. The engines compute
-- decisions and produce the evidence items that the guards look for, and the release gate refuses
-- a build with any counter above zero.
--
-- Files and code (paths from the repository's root):
--   Prelude          names of the libraries, Boolean tests, lists, dicts, sorting, decimals
--   Core/Failures    src/netops_autopilot/core/failures.py: `Failure` and what methods raise
--   Core/Counters    src/netops_autopilot/core/counters.py: `CounterCollector`
--   Core/Cache       src/netops_autopilot/core/cache.py: `LRUCache`
--   Core/TimeAuth    src/netops_autopilot/core/timeauth.py: `TimeAuthority`
--   Ledger/Models    src/netops_autopilot/ledger/models.py: `StateTransition`, its validation
--   Ledger/Recorder  `TransitionRecorder` of fsm/runtime.py as an interface of an operation and a
--                    law, and `append_transition`, `transitions` of ledger/store.py that fill it
--   Ledger/ClaimVerifier  src/netops_autopilot/ledger/claim_verifier.py and the records it reads
--   Fsm/Evidence     src/netops_autopilot/fsm/evidence.py and `GuardOutcome`
--   Fsm/Runtime      src/netops_autopilot/fsm/runtime.py: `GuardedFsm`, `allowed_targets`, `fire`
--   Fsm/Change, Fsm/Rollback, Fsm/Device, Fsm/Link, Fsm/Recovery
--                    src/netops_autopilot/fsm/change_fsm.py and the four beside it: the states,
--                    guards and tables
--   Engines/Autonomy, Engines/ConfigIr, Engines/FailureOrchestrator, Engines/Cleanup,
--   Engines/Verification
--                    the files of these names in src/netops_autopilot/engines/
--   Engines/Driver   how an engine makes evidence and calls `fire`: `_fire` of rollback_engine.py
--                    and recovery_engine.py, `fire` of change_engine.py, all in engines/
--   Engines/Capability  the recovery matrix of engines/capability.py
--   Engines/Rollback, Engines/Recovery, Engines/Change
--                    engines/rollback_engine.py, engines/recovery_engine.py,
--                    engines/change_engine.py and `veto` of policy/authority.py
--   Engines/DependencyDag  engines/dependency_dag.py: `_topological`, and in Build `build` with its
--                    checks, over what engines/service_graph.py says a service depends on
--   Engines/BlastRadius  engines/blast_radius.py: the propagation and the risk class
--   Tests            runs and calls at concrete inputs
--
-- State is passed explicitly. A `Machine` is a `GuardedFsm` with the counters and the log that it
-- writes to, since Python shares both objects; `fire` answers a result or an exception beside the
-- machine that is left, also behind an exception. A run is a list of requests, and a caller may
-- go on after an exception. The id and the time of a record are the request's, since `new_id` and the
-- clock are given from outside. Python's integers are natural numbers where the code keeps them
-- from being negative; texts are native texts; dicts are association lists in insertion order; a
-- frozenset is a list of its members. An evidence dict is reduced to the four keys that guards
-- read, each absent or a text.
--
-- An engine drives one machine. Its methods are actions: they take the engine, and answer a result
-- or an exception beside the engine that is left. Identifiers (`new_id` of core/ids.py, which
-- reads random bytes) and times come from an environment of which only that an identifier is not
-- empty is always assumed. The ledger refuses a record under an identifier that it has. Where a
-- theorem says that a method returns, the recorder is assumed to take every valid record under an
-- identifier that is not in its log, which is proved of the ledger store; `new_id` is assumed
-- never to repeat an identifier; and those that it is still to make are not in the log at the
-- start, nor, as the theorem then shows, at the end. The digest of rollback_engine.py is a
-- parameter, and the validation fabric, the DAG engine and the blast radius are an interface of
-- `prepare`.
--
-- Fuel is used in three places. The digits of a decimal are taken on n + 1 units of fuel for the
-- number n, which has at most n + 1 digits. Kahn's loop over the frontier takes as many units as
-- there are nodes: each turn takes one node from the frontier, and a node enters it once. The loop
-- of `_propagate` takes one unit more than there are nodes: each turn but the last finds a node. All
-- else is structural recursion.
--
-- An instant is a number of microseconds. The lock of the cache makes each method one step; its keys
-- are any type with an equality test, which is what a dict relies on.
--
-- Sets of edges are lists, since the sorting looks only at which there are. Counters of edges are
-- natural numbers: a counter is lowered once for each edge that was counted, and released where it
-- was one. A plan is kept without its sorted edges and its report on the management plane.
--
-- Not modelled: SQLite, JSON, hashes and signatures of the ledger, threads and locks, network
-- access, parsers, the web and desktop front ends, language models, and the engines that report
-- on inventory, monitoring and design. The texts of exceptions are modelled where the code builds
-- them from values; the `repr` of an exception of a guard is the guard's.
pub mod Prelude
pub mod Core
pub mod Ledger
pub mod Fsm
pub mod Engines
mod Tests
