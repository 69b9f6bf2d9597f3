-- ===== src/Tests/Machines.antt =====
-- fsm/: runs of a change and of a rollback.
use network.Prelude.{◌≡◌, refl, List, [], ◌∷◌, contains}
use network.Ledger.Models.{StateTransition, state_transition}
use network.Ledger.Recorder.{ledger_store, append_row}
use network.Fsm.Evidence.{Ctx, pass_if_all, pass_if_any, evidence_of, missing_kinds, found_ids}
use network.Fsm.Evidence.Laws.{AllEvidenced, Evidenced}
use network.Fsm.Runtime.{Machine, Request, fire, run, find_transition}
use network.Fsm.Runtime.Runs.{Asked}
use network.Fsm.Change.{
  change_transitions, g_2_1_validated, g_2_2_planned, g_2_3_risk_assessed, g_2_4_authorized,
  g_2_5_armed, g_2_6_applying, g_2_7_applied, g_2_9_verifying, g_2_10_verified, g_2_12_cleaned,
  g_2_13_closed,
}
use network.Fsm.Change.Guards.{arming_demands, closing_demands, Authorized, Verified, Cleaned}
use network.Fsm.Change.Safety.{Authorized-needs_gate, closed_accounts}
use network.Fsm.Rollback.{
  rollback_transitions, g_3_2_not_configured, g_3_3_not_ready, g_3_4_ready, g_3_5_armed,
  g_3_7_triggered, g_3_8_succeeded,
}
use network.Fsm.Rollback.Safety.{preconditions, success_demands, succeeded_accounts}
use network.Tests.Samples.{evidence, ask, machine}

abbrev change_ctx : Ctx
change_ctx = evidence "HIGH_RISK" "CONFIGURATION" (
    "validation_fabric:PASS" ∷ "dag:total_order" ∷ "dag:permanent_constraints_ok"
    ∷ "blast_radius:recorded" ∷ "risk_class:recorded" ∷ "readiness:all_true" ∷ "gate_verdict:ALLOW"
    ∷ "approval:rbac_identity" ∷ "approval:mfa_verified" ∷ "window:valid" ∷ "scheduler:no_conflict"
    ∷ "lock:acquirable" ∷ "rollback:READY" ∷ "scope_lock:recorded" ∷ "authorized_state:reverified"
    ∷ "allowlist:rechecked" ∷ "apply:all_stages_ack" ∷ "apply:settled" ∷ "tests:all_pass"
    ∷ "temp_resources:zero" ∷ "twin:refreshed_from_observed" ∷ "docs:emitted"
    ∷ "audit:chain_complete" ∷ [])

abbrev draft_change : Machine (List StateTransition)
draft_change = machine "FSM-2_CHANGE" "DRAFT" change_transitions

abbrev to_armed : List Request
to_armed =
    ask change_ctx "t1" "VALIDATED"
    ∷ ask change_ctx "t2" "PLANNED"
    ∷ ask change_ctx "t3" "RISK_ASSESSED"
    ∷ ask change_ctx "t4" "AUTHORIZED"
    ∷ ask change_ctx "t5" "ARMED"
    ∷ []

abbrev to_closed : List Request
to_closed =
    ask change_ctx "t1" "VALIDATED"
    ∷ ask change_ctx "t2" "PLANNED"
    ∷ ask change_ctx "t3" "RISK_ASSESSED"
    ∷ ask change_ctx "t4" "AUTHORIZED"
    ∷ ask change_ctx "t5" "ARMED"
    ∷ ask change_ctx "t6" "APPLYING"
    ∷ ask change_ctx "t7" "APPLIED"
    ∷ ask change_ctx "t8" "VERIFYING"
    ∷ ask change_ctx "t9" "VERIFIED"
    ∷ ask change_ctx "t10" "CLEANED"
    ∷ ask change_ctx "t11" "CLOSED"
    ∷ []

change_closes : (run ledger_store draft_change to_closed).fsm.state ≡ "CLOSED"
unfolding run fire change_transitions contains state_transition append_row g_2_1_validated
    g_2_2_planned g_2_3_risk_assessed g_2_4_authorized g_2_5_armed g_2_6_applying g_2_7_applied
    g_2_9_verifying g_2_10_verified g_2_12_cleaned g_2_13_closed pass_if_all pass_if_any evidence_of
    find_transition missing_kinds found_ids
change_closes = refl

change_arms : (run ledger_store draft_change to_armed).fsm.state ≡ "ARMED"
unfolding run fire change_transitions contains state_transition append_row g_2_1_validated
    g_2_2_planned g_2_3_risk_assessed g_2_4_authorized g_2_5_armed pass_if_all pass_if_any
    evidence_of find_transition missing_kinds found_ids
change_arms = refl

closed_accounts_example :
    Asked Authorized to_closed
    × Asked (AllEvidenced "CONFIGURATION" arming_demands) to_closed
    × Asked Verified to_closed
    × Asked Cleaned to_closed
    × Asked (AllEvidenced "CONFIGURATION" closing_demands) to_closed
closed_accounts_example =
    closed_accounts ledger_store draft_change to_closed refl refl change_closes

Authorized-needs_gate_example : Asked Authorized to_armed
unfolding contains
Authorized-needs_gate_example =
    Authorized-needs_gate ledger_store draft_change to_armed refl refl (rw change_arms)

abbrev rejected_change : Machine (List StateTransition)
rejected_change = machine "FSM-2_CHANGE" "REJECTED" change_transitions

abbrev armed_change : Machine (List StateTransition)
armed_change = machine "FSM-2_CHANGE" "ARMED" change_transitions

abbrev rollback_ctx : Ctx
rollback_ctx = evidence "" "CONFIGURATION" (
    "matrix:mechanism_supported" ∷ "artifact:exists" ∷ "precondition:MECHANISM_SUPPORTED_ON_VERSION"
    ∷ "precondition:ARTIFACT_EXISTS" ∷ "precondition:HASH_RECORDED"
    ∷ "precondition:FILESYSTEM_PREREQS" ∷ "precondition:TARGET_PRESERVES_MANAGEMENT_PATH"
    ∷ "precondition:ALL_COMMANDS_REVERSIBLE_BY_METHOD" ∷ "precondition:RECOVERY_PATH_VERIFIED"
    ∷ "fsm2:ARMED_bound" ∷ "rollback:trigger_reason" ∷ "rollback:reapplied"
    ∷ "rollback:post_verify_pass" ∷ "mgmt_path:reachable" ∷ [])

abbrev new_rollback : Machine (List StateTransition)
new_rollback = machine "FSM-3_ROLLBACK" "INIT" rollback_transitions

abbrev to_succeeded : List Request
to_succeeded =
    ask rollback_ctx "t1" "NOT_CONFIGURED"
    ∷ ask rollback_ctx "t2" "NOT_READY"
    ∷ ask rollback_ctx "t3" "READY"
    ∷ ask rollback_ctx "t4" "ARMED"
    ∷ ask rollback_ctx "t5" "ROLLBACK_TRIGGERED"
    ∷ ask rollback_ctx "t6" "ROLLBACK_SUCCEEDED"
    ∷ []

rollback_succeeds : (run ledger_store new_rollback to_succeeded).fsm.state ≡ "ROLLBACK_SUCCEEDED"
unfolding run fire rollback_transitions contains state_transition append_row g_3_2_not_configured
    g_3_3_not_ready g_3_4_ready g_3_5_armed g_3_7_triggered g_3_8_succeeded pass_if_all pass_if_any
    evidence_of find_transition missing_kinds found_ids
rollback_succeeds = refl

succeeded_accounts_example :
    Asked (AllEvidenced "CONFIGURATION" preconditions) to_succeeded
    × Asked (Evidenced "CONFIGURATION" "rollback:trigger_reason") to_succeeded
    × Asked (AllEvidenced "CONFIGURATION" success_demands) to_succeeded
succeeded_accounts_example =
    succeeded_accounts ledger_store new_rollback to_succeeded refl refl rollback_succeeds

abbrev failed_rollback : Machine (List StateTransition)
failed_rollback = machine "FSM-3_ROLLBACK" "ROLLBACK_FAILED" rollback_transitions
