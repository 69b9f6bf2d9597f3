-- ===== src/Fsm/Device.antt =====
-- fsm/device_fsm.py: FSM-1, the device lifecycle.
pub mod Safety
use Prim.Native.String.{len, slice}
use text.Mathlib.Text.{starts_with}
use network.Prelude.Order.{sorted}
use network.Prelude.{
  Bool, true, false, not, ◌&&◌, ◌||◌, Option, none, some, List, [], ◌∷◌, ◌++◌, String, str_eq,
  is_empty, if◌then◌else◌, contains, ◌+++◌, is_filled, or_else,
}
use network.Core.Failures.{Result}
use network.Fsm.Evidence.{
  Item, Ctx, GuardOutcome, returned, evidence_of, has_kinds, join, list_repr, pass_with, deny,
  deny_missing, pass_if_any, pass_if_all, text_or, is_text,
}
use network.Fsm.Runtime.{Transition, GuardedFsm, build, edge}

abbrev pub fsm_label : String
fsm_label = "FSM-1_DEVICE"

abbrev pub unknown : String
unknown = "UNKNOWN"

abbrev pub physical_detected : String
physical_detected = "PHYSICAL_DETECTED"

abbrev pub accessible : String
accessible = "ACCESSIBLE"

abbrev pub identified : String
identified = "IDENTIFIED"

abbrev pub bootstrap_required : String
bootstrap_required = "BOOTSTRAP_REQUIRED"

abbrev pub bootstrapped : String
bootstrapped = "BOOTSTRAPPED"

abbrev pub discovered : String
discovered = "DISCOVERED"

abbrev pub modeled : String
modeled = "MODELED"

abbrev pub managed : String
managed = "MANAGED"

abbrev pub access_limited : String
access_limited = "ACCESS_LIMITED"

abbrev pub password_locked : String
password_locked = "PASSWORD_LOCKED"

abbrev pub recovery_required : String
recovery_required = "RECOVERY_REQUIRED"

abbrev pub unsupported : String
unsupported = "UNSUPPORTED"

abbrev pub stale : String
stale = "STALE"

abbrev pub all_states : List String
all_states =
    unknown ∷ physical_detected ∷ accessible ∷ identified ∷ bootstrap_required ∷ bootstrapped
    ∷ discovered ∷ modeled ∷ managed ∷ access_limited ∷ password_locked ∷ recovery_required
    ∷ unsupported ∷ stale ∷ []

abbrev pub identity_fields : List String
identity_fields = "vendor" ∷ "model" ∷ "os" ∷ "version" ∷ []

unfoldable pub g_1_1_physical_detected : Ctx → GuardOutcome
g_1_1_physical_detected ctx =
    let ids =
      or_else
        (or_else (evidence_of ctx "INTERFACE_EXISTENCE" "carrier_probe")
          (evidence_of ctx "INTERFACE_EXISTENCE" "com_port"))
        (evidence_of ctx "DEVICE_IDENTITY" "mac_seen") in
    pass_if_any ids "carrier/COM/MAC probe (1.1)"

-- `if a and b: return pass_with(*(a + b))`, else `deny_missing`
abbrev pub pass_if_both : List String → List String → String → GuardOutcome
pass_if_both a b what =
    if not (is_empty a) && not (is_empty b) then pass_with (a ++ b) else deny_missing what

unfoldable pub g_1_2_accessible : Ctx → GuardOutcome
g_1_2_accessible ctx =
    pass_if_both (evidence_of ctx "DEVICE_IDENTITY" "session_open")
      (evidence_of ctx "DEVICE_IDENTITY" "day0_classifier") "session_open + day0_classifier (1.2)"

-- The loop of guard 1.3: the identity field of an item in good status, and its id.
unfoldable pub identity_field : Item → Option String
identity_field i =
    let kind = text_or i.kind "" in
    if is_text i.scope "DEVICE_IDENTITY"
      && starts_with kind "identity_field:"
      && str_eq (text_or i.status "OK") "OK"
    then some (slice kind (len "identity_field:") (len kind))
    else none

identity_loop : List Item → List String × List String
unfolding identity_field
identity_loop [] = ([], [])
identity_loop (i ∷ is) =
    let (fields, ids) = identity_loop is in
    elim (identity_field i) [
      | none ↦ (fields, ids)
      | some f ↦ (f ∷ fields, text_or i.evidence_id "" ∷ ids)
    ]

missing_fields : List String → List String → List String
missing_fields [] have = []
missing_fields (f ∷ fs) have =
    let rest = missing_fields fs have in if contains f have then rest else f ∷ rest

unfoldable pub g_1_3_identified : Ctx → GuardOutcome
unfolding identity_loop missing_fields pass_with deny_missing
g_1_3_identified ctx =
    let (fields, ids) = identity_loop ctx.evidence in
    let missing = missing_fields identity_fields fields in
    if is_empty missing
    then pass_with ids
    else deny_missing ("identity fields " +++ list_repr (sorted missing) +++ " (1.3)")

unfoldable pub g_1_4_bootstrap_required : Ctx → GuardOutcome
g_1_4_bootstrap_required ctx =
    pass_if_both
      (or_else (evidence_of ctx "DEVICE_IDENTITY" "day0_state:FACTORY_DEFAULT")
        (evidence_of ctx "DEVICE_IDENTITY" "day0_state:FACTORY_LIKE"))
      (evidence_of ctx "DEVICE_IDENTITY" "mgmt_plane_absent")
      "factory-like state + mgmt_plane_absent (1.4)"

unfoldable pub g_1_5_bootstrapped : Ctx → GuardOutcome
g_1_5_bootstrapped ctx =
    pass_if_both (evidence_of ctx "CONFIGURATION" "bootstrap_change_verified")
      (evidence_of ctx "CONFIGURATION" "post_bootstrap_baseline_hashed")
      "bootstrap VERIFIED + baseline hashed (1.5)"

unfoldable pub g_1_6_discovered : Ctx → GuardOutcome
g_1_6_discovered ctx =
    pass_if_any (evidence_of ctx "CONFIGURATION" "discovery_layers_terminal")
      "all discovery layers terminal (1.6)"

-- `any(i.get("kind") == kind for i in items)`
has_kind : String → List Item → Bool
has_kind kind [] = false
has_kind kind (i ∷ is) = is_text i.kind kind || has_kind kind is

unfoldable pub g_1_7_modeled : Ctx → GuardOutcome
unfolding has_kind pass_with deny_missing
g_1_7_modeled ctx =
    let accepted = evidence_of ctx "CONFIGURATION" "twin_claims_accepted" in
    let gaps = evidence_of ctx "CONFIGURATION" "gaps_list_emitted" in
    let no_hallucination = not (has_kind "entity_hallucination_flag" ctx.evidence) in
    if not (is_empty accepted) && not (is_empty gaps) && no_hallucination
    then pass_with (accepted ++ gaps)
    else deny_missing "twin acceptance + gaps list + zero hallucination flags (1.7)"

unfoldable pub g_1_8_managed : Ctx → GuardOutcome
unfolding pass_with deny_missing
g_1_8_managed ctx =
    let collectors = evidence_of ctx "SERVICE_REACHABILITY" "monitoring_collectors_bound" in
    let baseline = evidence_of ctx "CONFIGURATION" "reconciliation_baseline_stored" in
    let recovery = evidence_of ctx "SERVICE_REACHABILITY" "recovery_path_not_lost" in
    if not (is_empty collectors) && not (is_empty baseline) && not (is_empty recovery)
    then pass_with (collectors ++ (baseline ++ recovery))
    else deny_missing "collectors bound + baseline stored + recovery path != LOST (1.8)"

unfoldable pub g_1_9_access_limited : Ctx → GuardOutcome
g_1_9_access_limited ctx =
    pass_if_any (evidence_of ctx "DEVICE_IDENTITY" "command_set_denied")
      "denied/unsupported command evidence (1.9)"

unfoldable pub g_1_10_password_locked : Ctx → GuardOutcome
g_1_10_password_locked ctx =
    pass_if_any (evidence_of ctx "DEVICE_IDENTITY" "auth_rejected") "auth rejection evidence (1.10)"

unfoldable pub g_1_11_recovery_required : Ctx → GuardOutcome
g_1_11_recovery_required ctx =
    pass_if_any (evidence_of ctx "SERVICE_REACHABILITY" "reachability_timeout")
      "reachability timeout evidence (1.11)"

unfoldable pub g_1_12_unsupported : Ctx → GuardOutcome
g_1_12_unsupported ctx =
    pass_if_any (evidence_of ctx "DEVICE_IDENTITY" "capability_matrix_negative")
      "capability matrix negative lookup (1.12)"

unfoldable pub g_1_13_stale : Ctx → GuardOutcome
g_1_13_stale ctx =
    pass_if_any (evidence_of ctx "CONFIGURATION" "freshness_grace_exceeded")
      "freshness grace violation (1.13)"

unfoldable pub g_1_14_cleared : Ctx → GuardOutcome
g_1_14_cleared ctx =
    pass_if_any (evidence_of ctx "DEVICE_IDENTITY" "blocking_condition_cleared")
      "new evidence clearing the block (1.14)"

unfoldable pub device_transitions : List Transition
device_transitions =
    edge unknown physical_detected "1.1" g_1_1_physical_detected
    ∷ edge physical_detected accessible "1.2" g_1_2_accessible
    ∷ edge accessible identified "1.3" g_1_3_identified
    ∷ edge accessible access_limited "1.9" g_1_9_access_limited
    ∷ edge accessible password_locked "1.10" g_1_10_password_locked
    ∷ edge identified bootstrap_required "1.4" g_1_4_bootstrap_required
    ∷ edge bootstrap_required bootstrapped "1.5" g_1_5_bootstrapped
    ∷ edge identified discovered "1.6" g_1_6_discovered
    ∷ edge identified unsupported "1.12" g_1_12_unsupported
    ∷ edge discovered modeled "1.7" g_1_7_modeled
    ∷ edge modeled managed "1.8" g_1_8_managed
    ∷ edge managed stale "1.13" g_1_13_stale
    ∷ edge stale managed "1.14" g_1_14_cleared
    ∷ edge access_limited physical_detected "1.14" g_1_14_cleared
    ∷ edge password_locked physical_detected "1.14" g_1_14_cleared
    ∷ edge unknown recovery_required "1.11" g_1_11_recovery_required
    ∷ edge managed recovery_required "1.11" g_1_11_recovery_required
    ∷ edge recovery_required physical_detected "1.14" g_1_14_cleared
    ∷ []

unfoldable pub build_device_fsm : Result GuardedFsm
unfolding device_transitions
build_device_fsm = build fsm_label unknown device_transitions
