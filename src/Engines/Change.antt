-- ===== src/Engines/Change.antt =====
-- engines/change_engine.py: E15, which drives the change FSM through the decision spine, and the veto
-- of policy/authority.py. The validation fabric, the dependency DAG and the blast radius are reached
-- through an interface.
pub mod Evidence
pub mod Spine
pub mod Prepare
pub mod Veto
pub mod Lawful
use network.Prelude.{
  Bool, true, false, not, ◌&&◌, ◌||◌, Option, none, some, List, [], ◌∷◌, ◌++◌, String, is_filled,
  if◌then◌else◌, contains, ◌+++◌,
}
use network.Core.Failures.{Error, failed, value_error, Result, ok, err}
use network.Ledger.Models.{OperatorIdentity}
use network.Ledger.Recorder.{Recorder}
use network.Fsm.Evidence.{Item, Ctx, join}
use network.Fsm.Change.{
  scope, validated, planned, risk_assessed, authorized, rejected, mfa_gates, human_only_gates,
}
use network.Engines.ConfigIr.{ConfigIr, gate_class}
use network.Engines.Autonomy.{
  Verdict, auto_execute, approval_required, human_only, blocked, Approval, DecisionReadiness,
  all_true, false_conjuncts, AutonomyDecision, AutonomyAuthority, mfa_approved, decide,
}
use network.Engines.Driver.{Environment, Engine, Action, ◌>>=◌, ◌>>◌, new_evs, only, drive}

pub data FabricVerdict : Type 0 where
  passes fails is_blocked : FabricVerdict

-- The parts of a `FabricResult` that `prepare` reads.
pub record FabricResult : Type 0 where
  pub verdict : FabricVerdict
  pub preflight_not_modeled : Bool

-- The engines that `prepare` asks, with the arguments that it hands on to them.
pub record Stages (Plan Blast : Type 0) : Type 0 where
  pub fabric : ConfigIr → Result FabricResult
  pub dag : ConfigIr → Result Plan
  pub blast : ConfigIr → Result Blast
  pub risk_class : Blast → String

pub record PreparedChange (Plan Blast : Type 0) : Type 0 where
  pub change_id : String
  pub ir_id : String
  pub final_state : String
  pub blocked_reasons : List String
  pub evidence : List Item
  pub decision : Option AutonomyDecision
  pub plan : Option Plan
  pub blast : Option Blast

abbrev pub engine_actor : OperatorIdentity
engine_actor = record { kind = "ENGINE"; id = "E15"; rbac_role = none; mfa_verified = none }

abbrev pub verdict_text : FabricVerdict → String
verdict_text passes = "PASS"
verdict_text fails = "FAIL"
verdict_text is_blocked = "BLOCKED"

abbrev pub is_pass : FabricVerdict → Bool
is_pass passes = true
is_pass _ = false

abbrev pub is_verdict_blocked : Verdict → Bool
is_verdict_blocked blocked = true
is_verdict_blocked _ = false

abbrev pub is_human_only : Verdict → Bool
is_human_only human_only = true
is_human_only _ = false

abbrev pub is_auto : Verdict → Bool
is_auto auto_execute = true
is_auto _ = false

abbrev pub is_approval_required : Verdict → Bool
is_approval_required approval_required = true
is_approval_required _ = false

-- The kinds of evidence of the four steps, in the order in which they are made.
abbrev pub validated_kinds : FabricResult → List String
validated_kinds f =
    "validation_fabric:PASS"
    ∷ (if f.preflight_not_modeled
        then "validation_fabric:NOT_MODELED" ∷ "validation_fabric:not_modeled_recorded" ∷ []
        else [])

abbrev pub planned_kinds : List String
planned_kinds = "dag:total_order" ∷ "dag:permanent_constraints_ok" ∷ []

abbrev pub assessed_kinds : List String
assessed_kinds = "blast_radius:recorded" ∷ "risk_class:recorded" ∷ []

unfoldable pub approved_kinds : Option Approval → AutonomyDecision → List String
approved_kinds approval d =
    (if mfa_approved approval && contains d.gate_class mfa_gates
      then "approval:rbac_identity" ∷ "approval:mfa_verified" ∷ []
      else [])
    ++ ((if is_human_only d.verdict then "gate_verdict:HUMAN_DECIDED" ∷ [] else [])
        ++ (if is_auto d.verdict || d.approval_satisfied then "gate_verdict:ALLOW" ∷ [] else []))

-- Where a decision does not let the change be authorized, and the readiness does not.
unfoldable pub undecided : AutonomyDecision → Bool
undecided d =
    (is_approval_required d.verdict && not d.approval_satisfied)
    || (is_human_only d.verdict && not d.human_decided)

abbrev pub decision_of :
    {Plan Blast : Type 0}
    → Stages Plan Blast
    → AutonomyAuthority
    → ConfigIr
    → Option Approval
    → FabricResult
    → Blast
    → AutonomyDecision
decision_of stages autonomy ir approval f blast =
    decide autonomy (gate_class ir) (stages.risk_class blast) f.preflight_not_modeled approval

module _ (rec : Recorder) (env : Environment) {Plan Blast : Type 0} (stages : Stages Plan Blast)
    (autonomy : AutonomyAuthority) (change_id : String) (ir : ConfigIr)
    (readiness : DecisionReadiness) (approval : Option Approval) where
  abbrev Prepares : Type 0
  Prepares = Action (rec.Log) (PreparedChange Plan Blast)

  -- `return PreparedChange(...)`, with the FSM's state as it is then
  unfoldable pub prepared :
      List String → List Item → Option AutonomyDecision → Option Plan → Option Blast → Prepares
  prepared reasons evidence d plan blast e = (
    ok (record {
      change_id = change_id;
      ir_id = ir.ir_id;
      final_state = e.machine.fsm.state;
      blocked_reasons = reasons;
      evidence = evidence;
      decision = d;
      plan = plan;
      blast = blast;
    }),
    e,
  )

  unfoldable pub fire_change : String → Ctx → Action (rec.Log) (Unit {0})
  fire_change target ctx = drive rec env engine_actor change_id target ctx

  -- 2.4, behind the readiness
  unfoldable pub authorize : AutonomyDecision → Plan → Blast → List Item → Prepares
  authorize d plan blast evidence =
      if undecided d
      then prepared d.reasons evidence (some d) (some plan) (some blast)
      else new_evs env scope (approved_kinds approval d) >>= λ new.
          let ctx : Ctx = record { evidence = evidence ++ new; gate_class = d.gate_class } in
          fire_change authorized ctx
          >> prepared [] (evidence ++ new) (some d) (some plan) (some blast)

  -- 2.4
  unfoldable pub autonomy_step : AutonomyDecision → Plan → Blast → List Item → Prepares
  autonomy_step d plan blast evidence =
      if is_verdict_blocked d.verdict
      then prepared d.reasons evidence (some d) (some plan) (some blast)
      else if not (all_true readiness)
      then prepared (("READINESS_NOT_ALL_TRUE:" +++ join "," (false_conjuncts readiness)) ∷ [])
          evidence (some d) (some plan) (some blast)
      else new_evs env scope ("readiness:all_true" ∷ []) >>= λ new.
          authorize d plan blast (evidence ++ new)

  -- 2.3
  unfoldable pub blast_step : FabricResult → Plan → List Item → Prepares
  blast_step f plan evidence e = elim (stages.blast ir) [
    | err x ↦ (err x, e)
    | ok blast ↦
        (new_evs env scope assessed_kinds >>= λ new.
        fire_change risk_assessed (only (evidence ++ new))
        >> autonomy_step (decision_of stages autonomy ir approval f blast) plan blast
            (evidence ++ new))
          e
  ]

  -- 2.2
  unfoldable pub dag_step : FabricResult → List Item → Prepares
  dag_step f evidence e = elim (stages.dag ir) [
    | ok plan ↦
        (new_evs env scope planned_kinds >>= λ new.
        fire_change planned (only (evidence ++ new)) >> blast_step f plan (evidence ++ new))
          e
    | err (failed x) ↦ prepared x.causes evidence none none none e
    | err x ↦ (err x, e)
  ]

  -- 2.1
  unfoldable pub prepare : Prepares
  prepare e = elim (stages.fabric ir) [
    | err x ↦ (err x, e)
    | ok f ↦
        if not (is_pass f.verdict)
        then prepared (("FABRIC_" +++ verdict_text f.verdict) ∷ []) [] none none none e
        else (new_evs env scope (validated_kinds f) >>= λ new.
              fire_change validated (only new) >> dag_step f new)
            e
  ]

-- `VetoRecord` and `veto` of policy/authority.py
pub record VetoRecord : Type 0 where
  pub change_id : String
  pub actor : String
  pub reason : String
  pub evidence_ids : List String

unfoldable pub make_veto : String → String → String → List String → Result VetoRecord
make_veto change_id actor reason evidence_ids =
    if not (is_filled change_id && is_filled actor && is_filled reason)
    then err (value_error "VETO requires change_id, actor identity and reason")
    else ok (record {
      change_id = change_id;
      actor = actor;
      reason = reason;
      evidence_ids = evidence_ids;
    })

-- `ChangeEngine.veto`
unfoldable pub veto :
    (rec : Recorder)
    → Environment
    → String
    → String
    → String
    → List String
    → Action (rec.Log) (Unit {0})
veto rec env change_id actor reason evidence_ids e =
    elim (make_veto change_id actor reason evidence_ids) [
      | err x ↦ (err x, e)
      | ok v ↦
          (new_evs env scope ("verdict:REJECTED" ∷ "verdict:reason_recorded" ∷ []) >>= λ items.
          drive rec env engine_actor change_id rejected (only items))
            e
    ]
