-- ===== src/Fsm/Change.antt =====
-- fsm/change_fsm.py: FSM-2, the change lifecycle.
pub mod Guards
pub mod Safety
use network.Prelude.{
  Bool, true, false, not, ◌&&◌, ◌||◌, Option, none, some, List, [], ◌∷◌, ◌++◌, String, str_eq,
  is_empty, if◌then◌else◌, contains, ◌+++◌, is_filled, or_else,
}
use network.Core.Failures.{Result}
use network.Fsm.Evidence.{
  Item, Ctx, GuardOutcome, returned, evidence_of, has_kinds, join, pass_with, deny, deny_missing,
  pass_if_any, pass_if_all, text_or, is_text,
}
use network.Fsm.Runtime.{Transition, GuardedFsm, build, edge}

abbrev pub fsm_label : String
fsm_label = "FSM-2_CHANGE"

abbrev pub scope : String
scope = "CONFIGURATION"

abbrev pub draft : String
draft = "DRAFT"

abbrev pub validated : String
validated = "VALIDATED"

abbrev pub planned : String
planned = "PLANNED"

abbrev pub risk_assessed : String
risk_assessed = "RISK_ASSESSED"

abbrev pub authorized : String
authorized = "AUTHORIZED"

abbrev pub armed : String
armed = "ARMED"

abbrev pub applying : String
applying = "APPLYING"

abbrev pub applied : String
applied = "APPLIED"

abbrev pub verifying : String
verifying = "VERIFYING"

abbrev pub verified : String
verified = "VERIFIED"

abbrev pub cleaned : String
cleaned = "CLEANED"

abbrev pub closed : String
closed = "CLOSED"

abbrev pub rejected : String
rejected = "REJECTED"

abbrev pub partial : String
partial = "PARTIAL"

abbrev pub failed : String
failed = "FAILED"

abbrev pub rolled_back : String
rolled_back = "ROLLED_BACK"

abbrev pub recovering : String
recovering = "RECOVERING"

abbrev pub manual_required : String
manual_required = "MANUAL_REQUIRED"

abbrev pub all_states : List String
all_states =
    draft ∷ validated ∷ planned ∷ risk_assessed ∷ authorized ∷ armed ∷ applying ∷ applied
    ∷ verifying ∷ verified ∷ cleaned ∷ closed ∷ rejected ∷ partial ∷ failed ∷ rolled_back
    ∷ recovering ∷ manual_required ∷ []

abbrev pub human_only_gates : List String
human_only_gates = "IRREVERSIBLE" ∷ "DESTRUCTIVE" ∷ []

abbrev pub mfa_gates : List String
mfa_gates = "HIGH_RISK" ∷ "IRREVERSIBLE" ∷ "DESTRUCTIVE" ∷ []

unfoldable pub g_2_1_validated : Ctx → GuardOutcome
unfolding pass_with deny deny_missing
g_2_1_validated ctx =
    let ids = evidence_of ctx scope "validation_fabric:PASS" in
    let not_modeled = evidence_of ctx scope "validation_fabric:NOT_MODELED" in
    let noted = evidence_of ctx scope "validation_fabric:not_modeled_recorded" in
    if is_empty ids
    then deny_missing "validation_fabric:PASS (2.1)"
    else if not (is_empty not_modeled) && is_empty noted
    then deny "NOT_MODELED features present but not recorded (L13: NOT_MODELED != PASS)"
    else pass_with ids

abbrev pub g_2_2_planned_kinds : List String
g_2_2_planned_kinds = "dag:total_order" ∷ "dag:permanent_constraints_ok" ∷ []

unfoldable pub g_2_2_planned : Ctx → GuardOutcome
g_2_2_planned ctx = pass_if_all ctx scope g_2_2_planned_kinds " (2.2)"

abbrev pub g_2_3_risk_assessed_kinds : List String
g_2_3_risk_assessed_kinds = "blast_radius:recorded" ∷ "risk_class:recorded" ∷ []

unfoldable pub g_2_3_risk_assessed : Ctx → GuardOutcome
g_2_3_risk_assessed ctx = pass_if_all ctx scope g_2_3_risk_assessed_kinds " (2.3)"

-- `required` of guard 2.4
abbrev pub kinds_2_4 : String → List String
kinds_2_4 gate =
    "readiness:all_true"
      ∷ "gate_verdict:ALLOW"
      ∷ (if contains gate mfa_gates
          then "approval:rbac_identity" ∷ "approval:mfa_verified" ∷ []
          else [])
    ++ (if contains gate human_only_gates then "gate_verdict:HUMAN_DECIDED" ∷ [] else [])

unfoldable pub g_2_4_authorized : Ctx → GuardOutcome
unfolding deny
g_2_4_authorized ctx =
    if not (is_filled ctx.gate_class)
    then deny "gate_class absent from decision context (2.4)"
    else pass_if_all ctx scope (kinds_2_4 ctx.gate_class)
        (" (2.4, gate=" +++ ctx.gate_class +++ ")")

abbrev pub g_2_5_armed_kinds : List String
g_2_5_armed_kinds =
    "window:valid" ∷ "scheduler:no_conflict" ∷ "lock:acquirable" ∷ "rollback:READY"
    ∷ "scope_lock:recorded" ∷ []

unfoldable pub g_2_5_armed : Ctx → GuardOutcome
g_2_5_armed ctx = pass_if_all ctx scope g_2_5_armed_kinds " (2.5)"

abbrev pub g_2_6_applying_kinds : List String
g_2_6_applying_kinds = "authorized_state:reverified" ∷ "allowlist:rechecked" ∷ []

unfoldable pub g_2_6_applying : Ctx → GuardOutcome
g_2_6_applying ctx = pass_if_all ctx scope g_2_6_applying_kinds " (2.6)"

unfoldable pub g_2_7_applied : Ctx → GuardOutcome
g_2_7_applied ctx =
    pass_if_any (evidence_of ctx scope "apply:all_stages_ack") "apply:all_stages_ack (2.7)"

unfoldable pub g_2_8_failed : Ctx → GuardOutcome
unfolding pass_with deny_missing
g_2_8_failed ctx =
    let ids = evidence_of ctx scope "failure_orchestrator:decision" in
    let report = evidence_of ctx scope "failure_report:counts_and_causes" in
    if is_empty ids
    then deny_missing "failure_orchestrator:decision (2.8)"
    else if is_empty report
    then deny_missing "failure_report:counts_and_causes (T4)"
    else pass_with ids

unfoldable pub g_2_8_partial : Ctx → GuardOutcome
unfolding pass_with deny_missing
g_2_8_partial ctx =
    let ids = evidence_of ctx scope "failure_orchestrator:decision" in
    let report = evidence_of ctx scope "failure_report:counts_and_causes" in
    if is_empty ids
    then deny_missing "failure_orchestrator:decision (2.8)"
    else if is_empty report
    then deny_missing "failure_report:counts_and_causes (T4: n/N + causes mandatory)"
    else pass_with ids

unfoldable pub g_2_9_verifying : Ctx → GuardOutcome
g_2_9_verifying ctx = pass_if_any (evidence_of ctx scope "apply:settled") "apply:settled (2.9)"

unfoldable pub g_2_10_verified : Ctx → GuardOutcome
unfolding pass_with deny_missing
g_2_10_verified ctx =
    let all_pass = evidence_of ctx scope "tests:all_pass" in
    let non_pass = evidence_of ctx scope "tests:non_pass_present" in
    let acceptance = evidence_of ctx scope "tests:human_acceptance_per_non_pass" in
    if not (is_empty all_pass)
    then pass_with all_pass
    else if not (is_empty non_pass) && not (is_empty acceptance)
    then pass_with (non_pass ++ acceptance)
    else deny_missing
        "tests:all_pass OR (tests:non_pass_present + tests:human_acceptance_per_non_pass) (2.10)"

abbrev pub g_2_11_rolled_back_kinds : List String
g_2_11_rolled_back_kinds = "rollback:TRIGGERED" ∷ "rollback:SUCCEEDED" ∷ []

unfoldable pub g_2_11_rolled_back : Ctx → GuardOutcome
g_2_11_rolled_back ctx = pass_if_all ctx scope g_2_11_rolled_back_kinds " (2.11)"

abbrev pub g_2_11_recovering_kinds : List String
g_2_11_recovering_kinds = "rollback:TRIGGERED" ∷ "rollback:FAILED" ∷ []

unfoldable pub g_2_11_recovering : Ctx → GuardOutcome
g_2_11_recovering ctx = pass_if_all ctx scope g_2_11_recovering_kinds " (2.11)"

unfoldable pub g_2_12_cleaned : Ctx → GuardOutcome
g_2_12_cleaned ctx =
    let zero = evidence_of ctx scope "temp_resources:zero" in
    let preserved = evidence_of ctx scope "temp_resources:preserved_by_approval" in
    pass_if_any (or_else zero preserved) "temp_resources:zero | :preserved_by_approval (2.12)"

abbrev pub g_2_13_closed_kinds : List String
g_2_13_closed_kinds = "twin:refreshed_from_observed" ∷ "docs:emitted" ∷ "audit:chain_complete" ∷ []

unfoldable pub g_2_13_closed : Ctx → GuardOutcome
g_2_13_closed ctx = pass_if_all ctx scope g_2_13_closed_kinds " (2.13)"

unfoldable pub g_2_14_rejected : Ctx → GuardOutcome
unfolding pass_with deny_missing
g_2_14_rejected ctx =
    let ids = evidence_of ctx scope "verdict:REJECTED" in
    let reason = evidence_of ctx scope "verdict:reason_recorded" in
    if is_empty ids
    then deny_missing "verdict:REJECTED with reason + evidence (2.14)"
    else if is_empty reason
    then deny_missing "verdict:reason_recorded (2.14)"
    else pass_with ids

unfoldable pub g_2_15_manual_required : Ctx → GuardOutcome
g_2_15_manual_required ctx =
    pass_if_any (evidence_of ctx scope "human_task:instructions_emitted")
      "human_task:instructions_emitted (2.15)"

unfoldable pub change_transitions : List Transition
change_transitions =
    edge draft validated "2.1" g_2_1_validated
    ∷ edge validated planned "2.2" g_2_2_planned
    ∷ edge planned risk_assessed "2.3" g_2_3_risk_assessed
    ∷ edge risk_assessed authorized "2.4" g_2_4_authorized
    ∷ edge authorized armed "2.5" g_2_5_armed
    ∷ edge armed applying "2.6" g_2_6_applying
    ∷ edge applying applied "2.7" g_2_7_applied
    ∷ edge applying failed "2.8" g_2_8_failed
    ∷ edge applying partial "2.8" g_2_8_partial
    ∷ edge applied verifying "2.9" g_2_9_verifying
    ∷ edge verifying verified "2.10" g_2_10_verified
    ∷ edge verifying rolled_back "2.11" g_2_11_rolled_back
    ∷ edge verifying recovering "2.11" g_2_11_recovering
    ∷ edge verified cleaned "2.12" g_2_12_cleaned
    ∷ edge cleaned closed "2.13" g_2_13_closed
    ∷ edge draft rejected "2.14" g_2_14_rejected
    ∷ edge validated rejected "2.14" g_2_14_rejected
    ∷ edge planned rejected "2.14" g_2_14_rejected
    ∷ edge risk_assessed rejected "2.14" g_2_14_rejected
    ∷ edge authorized rejected "2.14" g_2_14_rejected
    ∷ edge failed manual_required "2.15" g_2_15_manual_required
    ∷ edge partial manual_required "2.15" g_2_15_manual_required
    ∷ []

unfoldable pub build_change_fsm : Result GuardedFsm
unfolding change_transitions
build_change_fsm = build fsm_label draft change_transitions
