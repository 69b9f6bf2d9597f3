-- ===== src/Engines/Change/Lawful.antt =====
-- engines/change_engine.py: what a change has behind it when `prepare` reports it AUTHORIZED.
use network.Prelude.{
  ◌≡◌, sym, ap, ◌∙◌, inl, inr, Bool, true, false, Option, String, arith, is_filled, contains,
  Bool-cases,
}
use network.Core.Failures.{Result, ok, err, Result-cases}
use network.Ledger.Recorder.{Recorder}
use network.Fsm.Change.{fsm_label, change_transitions, draft, authorized, mfa_gates}
use network.Engines.ConfigIr.{ConfigIr, gate_class}
use network.Engines.Autonomy.{
  Approval, DecisionReadiness, all_true, AutonomyAuthority, mfa_approved, decide,
}
use network.Engines.Driver.{Environment, Engine}
use network.Engines.Driver.Laws.{Takes, Placed}
use network.Engines.Change.{
  FabricResult, Stages, PreparedChange, is_pass, is_verdict_blocked, undecided, prepare,
  decision_of,
}
use network.Engines.Change.Evidence.{decide-Lawful}
use network.Engines.Change.Spine.{Answers, destination}
use network.Engines.Change.Prepare.{prepare_takes}

-- What an authorized change has behind it.
pub record Justified {Plan Blast : Type 0} (stages : Stages Plan Blast) (ir : ConfigIr)
    (readiness : DecisionReadiness) (approval : Option Approval) (f : FabricResult) : Type 0 where
  pub validated_by_fabric : is_pass f.verdict ≡ true
  pub ordered : (plan : Plan) × (stages.dag ir ≡ ok plan)
  pub modeled : f.preflight_not_modeled ≡ false
  pub ready : all_true readiness ≡ true
  pub approved : contains (gate_class ir) mfa_gates ≡ true → mfa_approved approval ≡ true

state_of : {L Plan Blast : Type 0} → Result (PreparedChange Plan Blast) × Engine L → String
state_of (ok p, e) = p.final_state
state_of (err x, e) = ""

modeled_if :
    (self : AutonomyAuthority) (gate risk : String) (nm : Bool) (approval : Option Approval)
    → is_verdict_blocked (decide self gate risk nm approval).verdict ≡ false
    → (nm ≡ false) × ((decide self gate risk nm approval).gate_class ≡ gate)
unfolding decide
modeled_if self gate risk nm approval h = (ground arith, ground arith)

destination-Justified :
    {Plan Blast : Type 0} (stages : Stages Plan Blast) (autonomy : AutonomyAuthority)
    (ir : ConfigIr) (readiness : DecisionReadiness) (approval : Option Approval) (f : FabricResult)
    (blast : Blast)
    → destination stages autonomy ir readiness approval f blast ≡ authorized
    → Justified stages ir readiness approval f
destination-Justified stages autonomy ir readiness approval f blast h =
    let d = decision_of stages autonomy ir approval f blast in
    elim (Bool-cases (is_pass f.verdict)) [
      | inr n ↦ absurd (cc (rw n at h))
      | inl passed ↦ elim (Result-cases (stages.dag ir)) [
        | inr (x, refused) ↦ absurd (cc (rw (passed, refused) at h))
        | inl (plan, built) ↦ elim (Bool-cases (is_verdict_blocked d.verdict)) [
          | inl y ↦ absurd (cc (rw (passed, built, y) at h))
          | inr free ↦ elim (Bool-cases (all_true readiness)) [
            | inr n ↦ absurd (cc (rw (passed, built, free, n) at h))
            | inl ready ↦ elim (Bool-cases (undecided d)) [
              | inl y ↦ absurd (cc (rw (passed, built, free, ready, y) at h))
              | inr settled ↦
                  let (modeled, gate) =
                    modeled_if autonomy (gate_class ir) (stages.risk_class blast)
                      f.preflight_not_modeled approval free in
                  record {
                    validated_by_fabric = passed;
                    ordered = (plan, built);
                    modeled = modeled;
                    ready = ready;
                    approved =
                        rw gate at
                          (decide-Lawful autonomy (gate_class ir) (stages.risk_class blast)
                            f.preflight_not_modeled approval free settled).approved;
                  }
            ]
          ]
        ]
      ]
    ]

module _ (rec : Recorder) (env : Environment) (takes : Takes rec env) {Plan Blast : Type 0}
    (stages : Stages Plan Blast) (autonomy : AutonomyAuthority) (change_id : String)
    (named : is_filled change_id ≡ true) (ir : ConfigIr) (readiness : DecisionReadiness)
    (approval : Option Approval) where
  -- If `prepare` of a named DRAFT change returns a change that it reports as AUTHORIZED, where the
  -- fabric and the blast radius answer and the DAG engine answers or refuses with a typed failure,
  -- with a recorder that takes every valid record under a new id, and with ids that neither repeat
  -- nor stand in its log, then the fabric passed the change and modelled it, the DAG engine has a
  -- plan, all eight conjuncts of the readiness are true, and on an MFA gate an approval with
  -- verified MFA was given.
  pub prepare-Justified :
      (f : FabricResult) (blast : Blast) (e after : Engine (rec.Log))
      (p : PreparedChange Plan Blast)
      → stages.fabric ir ≡ ok f
      → Answers (stages.dag ir)
      → stages.blast ir ≡ ok blast
      → Placed rec env fsm_label change_transitions draft e
      → prepare rec env stages autonomy change_id ir readiness approval e ≡ (ok p, after)
      → p.final_state ≡ authorized
      → Justified stages ir readiness approval f
  unfolding state_of
  prepare-Justified f blast e after p answer dag risk here ret final =
      let (q, says, (last, done, there, counted)) =
        prepare_takes rec env takes stages autonomy change_id named ir readiness approval f blast e
          answer dag risk here in
      destination-Justified stages autonomy ir readiness approval f blast
        (sym says ∙ ap state_of (sym done ∙ ret) ∙ final)
