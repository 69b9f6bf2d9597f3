-- ===== src/Engines/Rollback.antt =====
-- engines/rollback_engine.py: E16, which drives the rollback FSM. The digest `sha256_hex` is a
-- parameter.
pub mod Laws
pub mod Configure
pub mod Complete
pub mod Plan
use network.Prelude.{
  ℕ, Bool, true, false, not, ◌&&◌, ◌||◌, Option, none, some, List, [], ◌∷◌, ◌++◌, map, String,
  str_eq, is_empty, is_filled, contains, if◌then◌else◌, ◌+++◌,
}
use network.Prelude.Order.{sorted}
use network.Core.Failures.{Result, ok, err}
use network.Ledger.Models.{OperatorIdentity}
use network.Ledger.Recorder.{Recorder}
use network.Fsm.Evidence.{Item, ev, join}
use network.Fsm.Rollback.{
  scope, not_supported, not_configured, not_ready, ready, armed, confirmed, rollback_triggered,
  rollback_succeeded, rollback_failed, ready_preconditions,
}
use network.Engines.Capability.{
  CapabilityEngine, recovery_lookup, recovery_methods, is_supported, is_not_supported,
}
use network.Engines.ConfigIr.{IrNode, ConfigIr, is_irreversible}
use network.Engines.Driver.{
  Environment, Engine, Action, ◌>>=◌, ◌>>◌, blocked_if, raise, new_evs, only, drive,
}

abbrev pub rollback_actor : OperatorIdentity
rollback_actor = record { kind = "ENGINE"; id = "E16"; rbac_role = none; mfa_verified = none }

abbrev pub destructive_mechanisms : List String
destructive_mechanisms =
    "netinstall" ∷ "rommon_reset" ∷ "factory_reset" ∷ "bootloader_recovery" ∷ []

pub record RollbackArtifact : Type 0 where
  pub mechanism : String
  pub content : String
  pub recorded_hash : String
  pub preserves_management_path : Bool
  pub all_commands_reversible : Bool
  pub filesystem_prereqs_ok : Bool
  pub recovery_path_verified : Bool

pub record RollbackPlan : Type 0 where
  pub platform : String
  pub mechanism : Option String
  pub candidates : List String
  pub node_sequence : List String
  pub feasible : Bool
  pub blockers : List String

candidates_of : CapabilityEngine → String → List String → List String
candidates_of c platform [] = []
candidates_of c platform (m ∷ ms) =
    let rest = candidates_of c platform ms in
    if not (contains m destructive_mechanisms) && is_supported (recovery_lookup c platform m).status
    then m ∷ rest
    else rest

-- The methods come sorted by name, so sorting by preference puts those marked PRIMARY first.
primaries : Bool → CapabilityEngine → String → List String → List String
primaries marked c platform [] = []
primaries marked c platform (m ∷ ms) =
    let rest = primaries marked c platform ms in
    if (if marked
      then (recovery_lookup c platform m).primary
      else not (recovery_lookup c platform m).primary)
    then m ∷ rest
    else rest

unfoldable pub by_preference : CapabilityEngine → String → List String → List String
unfolding primaries
by_preference c platform ms = primaries true c platform ms ++ primaries false c platform ms

irreversible_ids : List IrNode → List String
irreversible_ids [] = []
irreversible_ids (n ∷ ns) =
    let rest = irreversible_ids ns in
    if is_irreversible n.reversibility then n.node_id ∷ rest else rest

reversed_ids : List IrNode → List String
reversed_ids [] = []
reversed_ids (n ∷ ns) = reversed_ids ns ++ (n.node_id ∷ [])

abbrev pub first_of : List String → Option String
first_of [] = none
first_of (x ∷ xs) = some x

unfoldable pub plan_from_ir : CapabilityEngine → ConfigIr → String → RollbackPlan
unfolding candidates_of irreversible_ids reversed_ids by_preference
plan_from_ir c ir platform =
    let candidates =
      by_preference c platform (candidates_of c platform (recovery_methods c platform)) in
    let irreversible = sorted (irreversible_ids ir.nodes) in
    let blockers =
      (if is_empty irreversible then [] else ("IRREVERSIBLE_NODES:" +++ join "," irreversible) ∷ [])
      ++ (if is_empty candidates then "NO_SUPPORTED_MECHANISM" ∷ [] else []) in
    record {
      platform = platform;
      mechanism = first_of candidates;
      candidates = candidates;
      node_sequence = reversed_ids ir.nodes;
      feasible = is_empty blockers;
      blockers = blockers;
    }

module _ (sha256_hex : String → String) where
  unfoldable pub hash_ok : RollbackArtifact → Bool
  hash_ok a = is_filled a.content && str_eq (sha256_hex a.content) a.recorded_hash

  abbrev pub unmet_if : Bool → String → List String
  unmet_if fine what = if fine then [] else what ∷ []

  unfoldable pub unmet : RollbackArtifact → List String
  unmet a =
      unmet_if (hash_ok a) "HASH_RECORDED (recomputed sha256 mismatch)"
      ++ (unmet_if a.filesystem_prereqs_ok "FILESYSTEM_PREREQS"
          ++ (unmet_if a.preserves_management_path "TARGET_PRESERVES_MANAGEMENT_PATH"
              ++ (unmet_if a.all_commands_reversible "ALL_COMMANDS_REVERSIBLE_BY_METHOD"
                  ++ unmet_if a.recovery_path_verified "RECOVERY_PATH_VERIFIED")))

module _ (rec : Recorder) (env : Environment) where
  -- `_fire` with items of new ids
  unfoldable pub fire_new : String → List String → String → Action (rec.Log) (Unit {0})
  fire_new target kinds entity =
      new_evs env scope kinds >>= λ items. drive rec env rollback_actor entity target (only items)

  -- `_fire` with given items
  abbrev pub fire_with : String → List Item → String → Action (rec.Log) (Unit {0})
  fire_with target items entity = drive rec env rollback_actor entity target (only items)

  module _ (capability : CapabilityEngine) (sha256_hex : String → String) where
    -- `configure`, behind its checks of the plan
    unfoldable pub configure_with : String → String → RollbackArtifact → Action (rec.Log) (Unit {0})
    configure_with platform mechanism artifact =
        fire_new not_configured ("matrix:mechanism_supported" ∷ []) platform
        >> (blocked_if (not (is_filled artifact.content)) "ARTIFACT_EMPTY"
            >> (fire_new not_ready ("artifact:exists" ∷ []) platform
                >> (blocked_if (not (is_empty (unmet sha256_hex artifact)))
                      ("ROLLBACK_PRECONDITIONS_UNMET:" +++ join ";" (unmet sha256_hex artifact))
                    >> fire_new ready ready_preconditions platform)))

    -- what the matrix says of the plan's mechanism
    unfoldable pub configure_on :
        RollbackPlan → String → RollbackArtifact → Action (rec.Log) (Unit {0})
    configure_on plan mechanism artifact =
        let status = (recovery_lookup capability plan.platform mechanism).status in
        if not (str_eq artifact.mechanism mechanism)
        then raise (
            "ARTIFACT_MECHANISM_MISMATCH: plan=" +++ mechanism +++ " artifact="
            +++ artifact.mechanism)
        else if is_not_supported status
        then fire_new not_supported ("matrix:mechanism_absent" ∷ []) plan.platform
          >> raise "ROLLBACK_NOT_SUPPORTED_BY_MATRIX"
        else if not (is_supported status)
        then raise ("ROLLBACK_MECHANISM_UNKNOWN:" +++ mechanism +++ " (T2: UNKNOWN never plans)")
        else configure_with plan.platform mechanism artifact

    unfoldable pub configure : RollbackPlan → RollbackArtifact → Action (rec.Log) (Unit {0})
    configure plan artifact =
        let infeasible = raise ("ROLLBACK_PLAN_INFEASIBLE:" +++ join ";" plan.blockers) in
        elim plan.mechanism [
          | none ↦ infeasible
          | some mechanism ↦
              if not plan.feasible then infeasible else configure_on plan mechanism artifact
        ]

  unfoldable pub arm : String → String → Action (rec.Log) (Unit {0})
  arm change_id fsm2_arm_evidence_id =
      blocked_if (not (is_filled fsm2_arm_evidence_id))
        "FSM2_ARM_BINDING_MISSING: rollback arms only against FSM-2 ARMED (ADR-0009)"
      >> fire_with armed (ev scope "fsm2:ARMED_bound" fsm2_arm_evidence_id ∷ []) change_id

  unfoldable pub confirm : String → String → String → Action (rec.Log) (Unit {0})
  confirm change_id apply_ok_id window_id =
      fire_with confirmed
        (ev scope "apply:ok" apply_ok_id ∷ ev scope "verification_window:opened" window_id ∷ [])
        change_id

  unfoldable pub trigger :
      (String → String) → String → String → RollbackArtifact → Action (rec.Log) (Unit {0})
  trigger sha256_hex change_id reason artifact =
      blocked_if (not (is_filled reason)) "ROLLBACK_TRIGGER_REASON_EMPTY"
      >> (blocked_if (not (hash_ok sha256_hex artifact))
            "ARTIFACT_HASH_MISMATCH: stored artifact changed since capture — refusing rollback"
          >> fire_new rollback_triggered ("rollback:trigger_reason" ∷ []) change_id)

  unfoldable pub complete : String → Bool → Bool → Bool → Action (rec.Log) (Unit {0})
  complete change_id reapplied post_verify_pass mgmt_reachable =
      if reapplied && post_verify_pass && mgmt_reachable
      then fire_new rollback_succeeded
          ("rollback:reapplied" ∷ "rollback:post_verify_pass" ∷ "mgmt_path:reachable" ∷ [])
          change_id
      else fire_new rollback_failed ("rollback:succeed_conjunct_failed" ∷ []) change_id
