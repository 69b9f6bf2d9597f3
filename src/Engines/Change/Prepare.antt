-- ===== src/Engines/Change/Prepare.antt =====
-- engines/change_engine.py: where `prepare` takes a change, whatever the engines that it asks answer.
use network.Prelude.{
  ◌≡◌, refl, ap, ◌∙◌, inl, inr, true, false, Option, none, some, List, [], ◌∷◌, ◌++◌, String,
  is_filled, if◌then◌else◌, Bool-cases,
}
use network.Core.Failures.{ok}
use network.Ledger.Recorder.{Recorder}
use network.Fsm.Evidence.{Item}
use network.Fsm.Evidence.Laws.{pass_if_all-accepted}
use network.Fsm.Runtime.{Machine, GuardedFsm, find_transition, edge, judged}
use network.Fsm.Change.{
  fsm_label, scope, change_transitions, draft, validated, planned, risk_assessed, authorized,
  g_2_1_validated, g_2_2_planned, g_2_3_risk_assessed, g_2_4_authorized,
}
use network.Engines.ConfigIr.{ConfigIr, gate_class}
use network.Engines.Autonomy.{
  Approval, DecisionReadiness, all_true, AutonomyDecision, AutonomyAuthority,
}
use network.Engines.Driver.{Environment, Engine, only}
use network.Engines.Driver.Laws.{Takes, Placed}
use network.Engines.Driver.Items.{new_evs-Evidences, Placed-after}
use network.Engines.Change.{
  FabricResult, Stages, is_pass, is_verdict_blocked, undecided, validated_kinds, planned_kinds,
  assessed_kinds, approved_kinds, prepared, fire_change, decision_of, authorize, autonomy_step,
  blast_step, dag_step, prepare,
}
use network.Engines.Change.Evidence.{
  Has, Has-left, Has-right, AllHas-right, Lawful, decide-Lawful, g_2_4-accepts,
}
use network.Engines.Change.Spine.{
  PreparedIn, step_takes, validated_accepts, Answers, planned_to, decided, destination,
}

module _ (rec : Recorder) (env : Environment) (takes : Takes rec env) {Plan Blast : Type 0}
    (stages : Stages Plan Blast) (autonomy : AutonomyAuthority) (change_id : String)
    (named : is_filled change_id ≡ true) (ir : ConfigIr) (readiness : DecisionReadiness)
    (approval : Option Approval) where
  -- What `return PreparedChange(...)` reports.
  prepared-PreparedIn :
      (s : String) (reasons : List String) (evidence : List Item) (d : Option AutonomyDecision)
      (plan : Option Plan) (blast : Option Blast) (e : Engine (rec.Log))
      → Placed rec env fsm_label change_transitions s e
      → PreparedIn rec env s e (
          prepared rec env stages autonomy change_id ir readiness approval reasons evidence d plan
            blast e)
  unfolding prepared
  prepared-PreparedIn s reasons evidence d plan blast e here =
      (_, ap (λ (fsm : GuardedFsm). fsm.state) here.0, (e, refl, here, refl))

  authorize_takes :
      (d : AutonomyDecision) (plan : Plan) (blast : Blast) (evidence : List Item)
      (e : Engine (rec.Log))
      → (undecided d ≡ false → Lawful approval d)
      → Has "readiness:all_true" evidence
      → Placed rec env fsm_label change_transitions risk_assessed e
      → PreparedIn rec env (if undecided d then risk_assessed else authorized) e (
          authorize rec env stages autonomy change_id ir readiness approval d plan blast evidence e)
  unfolding authorize fire_change find_transition change_transitions judged
  authorize_takes d plan blast evidence e lawful ready here = elim (Bool-cases (undecided d)) [
    | inl y ↦ rw y (
        prepared-PreparedIn risk_assessed d.reasons evidence (some d) (some plan) (some blast) e
          here)
    | inr n ↦
        let v = new_evs-Evidences env scope (approved_kinds approval d) e in
        rw n (
          step_takes rec env takes change_id (approved_kinds approval d) risk_assessed authorized
            authorized (edge risk_assessed authorized "2.4" g_2_4_authorized)
            (λ new. record { evidence = evidence ++ new; gate_class = d.gate_class })
            (λ new.
              prepared rec env stages autonomy change_id ir readiness approval [] (evidence ++ new)
                (some d) (some plan) (some blast))
            e named here refl refl refl refl
            (g_2_4-accepts approval d _ (lawful n) refl
              (Has-left "readiness:all_true" evidence v.items ready)
              (AllHas-right (approved_kinds approval d) evidence v.items v.shown))
            (λ new after shown there.
              prepared-PreparedIn authorized [] (evidence ++ new) (some d) (some plan) (some blast)
                after there))
  ]

  autonomy_step_takes :
      (d : AutonomyDecision) (plan : Plan) (blast : Blast) (evidence : List Item)
      (e : Engine (rec.Log))
      → (is_verdict_blocked d.verdict ≡ false → undecided d ≡ false → Lawful approval d)
      → Placed rec env fsm_label change_transitions risk_assessed e
      → PreparedIn rec env (decided readiness d) e (
          autonomy_step rec env stages autonomy change_id ir readiness approval d plan blast
            evidence e)
  unfolding autonomy_step
  autonomy_step_takes d plan blast evidence e lawful here =
      elim (Bool-cases (is_verdict_blocked d.verdict)) [
        | inl y ↦
            rw y (
              prepared-PreparedIn risk_assessed _ evidence (some d) (some plan) (some blast) e here)
        | inr free ↦ elim (Bool-cases (all_true readiness)) [
          | inr n ↦
              rw (free, n)
                (prepared-PreparedIn risk_assessed _ evidence (some d) (some plan) (some blast) e
                  here)
          | inl y ↦
              let v = new_evs-Evidences env scope ("readiness:all_true" ∷ []) e in
              let (p, says, (last, done, there, counted)) =
                authorize_takes d plan blast (evidence ++ v.items) v.after (lawful free)
                  (Has-right "readiness:all_true" evidence v.items v.shown.0)
                  (Placed-after rec env fsm_label change_transitions risk_assessed v here) in
              rw (free, y)
                (
                  p,
                  says,
                  (
                    last,
                    rw v.returns done,
                    there,
                    counted ∙ ap (λ (m : Machine (rec.Log)). m.counters) v.same,
                  ),
                )
        ]
      ]

  blast_step_takes :
      (f : FabricResult) (plan : Plan) (blast : Blast) (evidence : List Item) (e : Engine (rec.Log))
      → stages.blast ir ≡ ok blast
      → Placed rec env fsm_label change_transitions planned e
      → PreparedIn rec env
          (decided readiness (decision_of stages autonomy ir approval f blast))
          e
          (blast_step rec env stages autonomy change_id ir readiness approval f plan evidence e)
  unfolding blast_step fire_change find_transition change_transitions judged g_2_3_risk_assessed
  blast_step_takes f plan blast evidence e answer here =
      let v = new_evs-Evidences env scope assessed_kinds e in
      rw (answer, blast_step)
        (step_takes rec env takes change_id assessed_kinds planned risk_assessed _
          (edge planned risk_assessed "2.3" g_2_3_risk_assessed) (λ new. only (evidence ++ new))
          (λ new.
            autonomy_step rec env stages autonomy change_id ir readiness approval
              (decision_of stages autonomy ir approval f blast) plan blast (evidence ++ new))
          e named here refl refl refl refl
          ((pass_if_all-accepted _ scope assessed_kinds " (2.3)").1
            (AllHas-right assessed_kinds evidence v.items v.shown))
          (λ new after shown there.
            autonomy_step_takes _ plan blast (evidence ++ new) after
              (decide-Lawful autonomy (gate_class ir) (stages.risk_class blast)
                f.preflight_not_modeled approval)
              there))

  dag_step_takes :
      (f : FabricResult) (blast : Blast) (evidence : List Item) (e : Engine (rec.Log))
      → Answers (stages.dag ir)
      → stages.blast ir ≡ ok blast
      → Placed rec env fsm_label change_transitions validated e
      → PreparedIn rec env
          (planned_to
            (stages.dag ir)
            (decided readiness (decision_of stages autonomy ir approval f blast)))
          e
          (dag_step rec env stages autonomy change_id ir readiness approval f evidence e)
  unfolding dag_step fire_change find_transition change_transitions judged g_2_2_planned
  dag_step_takes f blast evidence e (inr (x, refused)) answer here =
      rw (refused, dag_step) (prepared-PreparedIn validated x.causes evidence none none none e here)
  dag_step_takes f blast evidence e (inl (plan, built)) answer here =
      let v = new_evs-Evidences env scope planned_kinds e in
      rw (built, dag_step)
        (step_takes rec env takes change_id planned_kinds validated planned _
          (edge validated planned "2.2" g_2_2_planned) (λ new. only (evidence ++ new))
          (λ new.
            blast_step rec env stages autonomy change_id ir readiness approval f plan
              (evidence ++ new))
          e named here refl refl refl refl
          ((pass_if_all-accepted _ scope planned_kinds " (2.2)").1
            (AllHas-right planned_kinds evidence v.items v.shown))
          (λ new after shown there.
            blast_step_takes f plan blast (evidence ++ new) after answer there))

  -- With a recorder that takes every valid record under a new id, and with ids that neither
  -- repeat nor stand in its log, `prepare` of a named DRAFT change returns whatever the fabric,
  -- the DAG engine and the blast radius answer, short of an exception of another kind: the
  -- change is in its destination, the result reports that state, and no counter moves.
  pub prepare_takes :
      (f : FabricResult) (blast : Blast) (e : Engine (rec.Log))
      → stages.fabric ir ≡ ok f
      → Answers (stages.dag ir)
      → stages.blast ir ≡ ok blast
      → Placed rec env fsm_label change_transitions draft e
      → PreparedIn rec env
          (destination stages autonomy ir readiness approval f blast)
          e
          (prepare rec env stages autonomy change_id ir readiness approval e)
  unfolding prepare fire_change find_transition change_transitions judged
  prepare_takes f blast e answer dag risk here = elim (Bool-cases (is_pass f.verdict)) [
    | inr n ↦ rw (answer, prepare, n) (prepared-PreparedIn draft _ [] none none none e here)
    | inl y ↦
        rw (answer, prepare, y)
          (step_takes rec env takes change_id (validated_kinds f) draft validated _
            (edge draft validated "2.1" g_2_1_validated) (λ new. only new)
            (λ new. dag_step rec env stages autonomy change_id ir readiness approval f new) e named
            here refl refl refl refl (validated_accepts env f.preflight_not_modeled e)
            (λ new after shown there. dag_step_takes f blast new after dag risk there))
  ]
