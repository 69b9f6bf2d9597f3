-- ===== src/Fsm/Rollback.antt =====
-- fsm/rollback_fsm.py: FSM-3, rollback.
pub mod Safety
use network.Prelude.{
  Bool, true, false, not, ◌&&◌, ◌||◌, Option, none, some, List, [], ◌∷◌, ◌++◌, String, str_eq,
  is_empty, if◌then◌else◌, contains, ◌+++◌, is_filled, or_else,
}
use network.Core.Failures.{Result}
use network.Fsm.Evidence.{
  Item, Ctx, GuardOutcome, returned, evidence_of, has_kinds, join, pass_with, deny, deny_missing,
  pass_if_any, pass_if_all, text_or, is_text,
}
use network.Fsm.Runtime.{Transition, GuardedFsm, build, edge}

abbrev pub fsm_label : String
fsm_label = "FSM-3_ROLLBACK"

abbrev pub scope : String
scope = "CONFIGURATION"

abbrev pub init : String
init = "INIT"

abbrev pub not_supported : String
not_supported = "NOT_SUPPORTED"

abbrev pub not_configured : String
not_configured = "NOT_CONFIGURED"

abbrev pub not_ready : String
not_ready = "NOT_READY"

abbrev pub ready : String
ready = "READY"

abbrev pub armed : String
armed = "ARMED"

abbrev pub confirmed : String
confirmed = "CONFIRMED"

abbrev pub rollback_triggered : String
rollback_triggered = "ROLLBACK_TRIGGERED"

abbrev pub rollback_succeeded : String
rollback_succeeded = "ROLLBACK_SUCCEEDED"

abbrev pub rollback_failed : String
rollback_failed = "ROLLBACK_FAILED"

abbrev pub unknown : String
unknown = "UNKNOWN"

abbrev pub all_states : List String
all_states =
    init ∷ not_supported ∷ not_configured ∷ not_ready ∷ ready ∷ armed ∷ confirmed
    ∷ rollback_triggered ∷ rollback_succeeded ∷ rollback_failed ∷ unknown ∷ []

abbrev pub ready_preconditions : List String
ready_preconditions =
    "precondition:MECHANISM_SUPPORTED_ON_VERSION" ∷ "precondition:ARTIFACT_EXISTS"
    ∷ "precondition:HASH_RECORDED" ∷ "precondition:FILESYSTEM_PREREQS"
    ∷ "precondition:TARGET_PRESERVES_MANAGEMENT_PATH"
    ∷ "precondition:ALL_COMMANDS_REVERSIBLE_BY_METHOD" ∷ "precondition:RECOVERY_PATH_VERIFIED" ∷ []

unfoldable pub g_3_1_not_supported : Ctx → GuardOutcome
g_3_1_not_supported ctx =
    pass_if_any (evidence_of ctx scope "matrix:mechanism_absent") "matrix:mechanism_absent (3.1)"

unfoldable pub g_3_2_not_configured : Ctx → GuardOutcome
g_3_2_not_configured ctx =
    pass_if_any (evidence_of ctx scope "matrix:mechanism_supported")
      "matrix:mechanism_supported (3.2)"

unfoldable pub g_3_3_not_ready : Ctx → GuardOutcome
g_3_3_not_ready ctx = pass_if_any (evidence_of ctx scope "artifact:exists") "artifact:exists (3.3)"

unfoldable pub g_3_4_ready : Ctx → GuardOutcome
g_3_4_ready ctx = pass_if_all ctx scope ready_preconditions " (3.4)"

unfoldable pub g_3_5_armed : Ctx → GuardOutcome
g_3_5_armed ctx = pass_if_any (evidence_of ctx scope "fsm2:ARMED_bound") "fsm2:ARMED_bound (3.5)"

abbrev pub g_3_6_confirmed_kinds : List String
g_3_6_confirmed_kinds = "apply:ok" ∷ "verification_window:opened" ∷ []

unfoldable pub g_3_6_confirmed : Ctx → GuardOutcome
g_3_6_confirmed ctx = pass_if_all ctx scope g_3_6_confirmed_kinds " (3.6)"

unfoldable pub g_3_7_triggered : Ctx → GuardOutcome
g_3_7_triggered ctx =
    pass_if_any (evidence_of ctx scope "rollback:trigger_reason") "rollback:trigger_reason (3.7)"

abbrev pub g_3_8_succeeded_kinds : List String
g_3_8_succeeded_kinds =
    "rollback:reapplied" ∷ "rollback:post_verify_pass" ∷ "mgmt_path:reachable" ∷ []

unfoldable pub g_3_8_succeeded : Ctx → GuardOutcome
g_3_8_succeeded ctx = pass_if_all ctx scope g_3_8_succeeded_kinds " (3.8)"

unfoldable pub g_3_9_failed : Ctx → GuardOutcome
g_3_9_failed ctx =
    pass_if_any (evidence_of ctx scope "rollback:succeed_conjunct_failed")
      "rollback:succeed_conjunct_failed (3.9)"

unfoldable pub g_3_10_unknown : Ctx → GuardOutcome
g_3_10_unknown ctx =
    pass_if_any (evidence_of ctx scope "evidence:vanished") "evidence:vanished (3.10)"

unfoldable pub rollback_transitions : List Transition
rollback_transitions =
    edge init not_supported "3.1" g_3_1_not_supported
    ∷ edge init not_configured "3.2" g_3_2_not_configured
    ∷ edge not_configured not_ready "3.3" g_3_3_not_ready
    ∷ edge not_ready ready "3.4" g_3_4_ready
    ∷ edge ready armed "3.5" g_3_5_armed
    ∷ edge armed confirmed "3.6" g_3_6_confirmed
    ∷ edge armed rollback_triggered "3.7" g_3_7_triggered
    ∷ edge rollback_triggered rollback_succeeded "3.8" g_3_8_succeeded
    ∷ edge rollback_triggered rollback_failed "3.9" g_3_9_failed
    ∷ edge armed unknown "3.10" g_3_10_unknown
    ∷ edge not_configured unknown "3.10" g_3_10_unknown
    ∷ []

unfoldable pub build_rollback_fsm : Result GuardedFsm
unfolding rollback_transitions
build_rollback_fsm = build fsm_label init rollback_transitions
