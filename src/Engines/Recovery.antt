-- ===== src/Engines/Recovery.antt =====
-- engines/recovery_engine.py: E17, which drives the recovery FSM.
pub mod Laws
pub mod Excuses
pub mod Ladder
pub mod Climbed
use network.Prelude.{
  ℕ, suc, Bool, true, false, not, ◌==◌, ltb, leb, ◌&&◌, Option, none, some, List, [], ◌∷◌, ◌++◌,
  String, str_eq, is_empty, is_filled, if◌then◌else◌, ◌+++◌,
}
use network.Prelude.Decimal.{decimal}
use network.Ledger.Models.{OperatorIdentity}
use network.Ledger.Recorder.{Recorder}
use network.Fsm.Recovery.{
  scope, digit, escalating_l0, escalating_l4, escalating_l5, recovered, human_required, lost,
}
use network.Engines.Capability.{
  CapabilityEngine, RecoveryStatus, unknown_status, recovery_lookup, is_not_supported,
}
use network.Engines.Driver.{
  Environment, Engine, Action, ◌>>=◌, ◌>>◌, blocked_if, raise, evs_or, only, drive,
}

abbrev pub recovery_actor : OperatorIdentity
recovery_actor = record { kind = "ENGINE"; id = "E17"; rbac_role = none; mfa_verified = none }

-- A level as the caller gives it.
pub data ℤ : Type 0 where
  pos negsuc : ℕ → ℤ

abbrev pub text_of : ℤ → String
text_of (pos n) = decimal n
text_of (negsuc n) = "-" +++ decimal (suc n)

abbrev pub max_level : ℕ
max_level = 7

-- `LEVEL_MECHANISM`
abbrev pub level_mechanism : ℕ → Option String
level_mechanism n =
    if n == 3
    then some "oob"
    else if n == 4
    then some "console_recovery"
    else if n == 5
    then some "bootloader_recovery"
    else none

abbrev pub is_unknown : RecoveryStatus → Bool
is_unknown unknown_status = true
is_unknown _ = false

abbrev pub level_state : ℕ → String
level_state n = "ESCALATING_L" +++ digit n

abbrev pub attempt_kind : ℕ → String
attempt_kind n = "attempt:L" +++ digit n +++ "_failed"

-- The evidence by which the matrix excuses a level.
excuse_for : ℕ → RecoveryStatus → List String
excuse_for n status =
    if is_not_supported status
    then ("matrix:L" +++ digit n +++ "_not_supported") ∷ []
    else if is_unknown status && n == 3
    then ("matrix:L" +++ digit n +++ "_not_configured") ∷ []
    else []

excuse_by : CapabilityEngine → String → ℕ → Option String → List String
unfolding excuse_for
excuse_by capability platform n none = []
excuse_by capability platform n (some mechanism) =
    excuse_for n (recovery_lookup capability platform mechanism).status

unfoldable pub excuses : CapabilityEngine → String → ℕ → List String
unfolding excuse_by
excuses capability platform n = excuse_by capability platform n (level_mechanism n)

-- The evidence that `escalate_into_destructive` builds itself.
unfoldable pub destructive_kind : CapabilityEngine → String → String
destructive_kind capability platform =
    if is_not_supported (recovery_lookup capability platform "console_recovery").status
    then "matrix:L4_not_supported"
    else "attempt:L4_failed"

-- The kinds of `_ev` without an id.
abbrev pub unnamed : List String → List (String × String)
unnamed [] = []
unnamed (kind ∷ kinds) = (kind, "") ∷ unnamed kinds

module _ (rec : Recorder) (env : Environment) where
  -- `_fire` with the items of `_ev`
  unfoldable pub fire_for : String → String → List (String × String) → Action (rec.Log) (Unit {0})
  fire_for target entity given =
      evs_or env scope given >>= λ items. drive rec env recovery_actor entity target (only items)

  unfoldable pub start : String → String → String → Action (rec.Log) (Unit {0})
  start device_ref failure_evidence_id change_id =
      blocked_if (not (is_filled failure_evidence_id && is_filled change_id))
        "RECOVERY_BINDING_INCOMPLETE: classified failure + bound change required (5.1)"
      >> fire_for escalating_l0 device_ref (
          ("failure:classified_recoverable", failure_evidence_id)
          ∷ ("change:bound", change_id)
          ∷ [])

  module _ (capability : CapabilityEngine) (platform : String) where
    -- `escalate`, behind its checks of the level
    unfoldable pub escalate_from : String → ℕ → Option Bool → Action (rec.Log) (Unit {0})
    escalate_from device_ref n attempt_failed =
        let target = level_state (suc n) in
        let excused = excuses capability platform n in
        if not (is_empty excused)
        then fire_for target device_ref (unnamed excused)
        else elim attempt_failed [
          | none ↦ raise (
              "ATTEMPT_RESULT_REQUIRED:L"
              +++ digit n
              +++ " — the engine never fabricates attempt outcomes (T2)")
          | some outcome ↦
              if not outcome
              then raise (
                  "ATTEMPT_NOT_FAILED:L"
                  +++ digit n
                  +++ " — escalation evidence requires failure; success belongs to 5.3")
              else fire_for target device_ref ((attempt_kind n, "") ∷ [])
        ]

    unfoldable pub escalate : String → ℤ → Option Bool → Action (rec.Log) (Unit {0})
    escalate device_ref level_from attempt_failed e = elim level_from [
      | negsuc n ↦ raise ("RECOVERY_LEVEL_OUT_OF_RANGE:" +++ text_of (negsuc n)) e
      | pos n ↦
          if leb max_level n
          then raise ("RECOVERY_LEVEL_OUT_OF_RANGE:" +++ text_of (pos n)) e
          else if n == 4
          then raise
              "DESTRUCTIVE_GATE_REQUIRED: use escalate_into_destructive() with a recorded human decision (L06)"
              e
          else if n == 0 && not (str_eq e.machine.fsm.state escalating_l0)
          then raise "RECOVERY_NOT_STARTED: call start() before escalating" e
          else escalate_from device_ref n attempt_failed e
    ]

    unfoldable pub escalate_into_destructive : String → String → Action (rec.Log) (Unit {0})
    escalate_into_destructive device_ref human_decision e =
        if not (is_filled human_decision)
        then raise "DESTRUCTIVE_GATE_REQUIRED: L5 entry needs a recorded human decision (5.4, L06)"
            e
        else if not (str_eq e.machine.fsm.state escalating_l4)
        then raise ("RECOVERY_STATE_NOT_L4: currently " +++ e.machine.fsm.state) e
        else fire_for escalating_l5 device_ref
            ((destructive_kind capability platform, "")
              ∷ ("gate:DESTRUCTIVE_human_decision", human_decision)
              ∷ [])
            e

  unfoldable pub recover : String → String → String → String → Action (rec.Log) (Unit {0})
  recover device_ref reachability_id identity_id reclassification_id =
      fire_for recovered device_ref (
        ("device:reachable_again", reachability_id)
        ∷ ("identity:reconfirmed", identity_id)
        ∷ ("state:reclassified", reclassification_id)
        ∷ [])

  unfoldable pub require_human : String → String → Action (rec.Log) (Unit {0})
  require_human device_ref instructions_evidence_id =
      blocked_if (not (is_filled instructions_evidence_id)) "HUMAN_TASK_INSTRUCTIONS_MISSING (5.5)"
      >> fire_for human_required device_ref
          (("human_task:instructions_emitted", instructions_evidence_id) ∷ [])

  unfoldable pub lose : String → String → Action (rec.Log) (Unit {0})
  lose device_ref exhausted_evidence_id =
      blocked_if (not (is_filled exhausted_evidence_id)) "PATHS_EXHAUSTED_EVIDENCE_MISSING (5.6)"
      >> fire_for lost device_ref (("paths:all_exhausted", exhausted_evidence_id) ∷ [])
