-- ===== src/Engines/Change/Spine.antt =====
-- engines/change_engine.py: one step of the spine of `prepare`, and where the change is to end.
use network.Prelude.{
  ◌≡◌, refl, ap, subst, ◌∙◌, ◌⊎◌, Bool, true, false, not, ◌||◌, Option, some, List, [], ◌∷◌, String,
  is_filled, contains, if◌then◌else◌,
}
use network.Core.Failures.{Failure, failed, Result, ok, err}
use network.Ledger.Models.{fsm_labels}
use network.Ledger.Recorder.{Recorder}
use network.Fsm.Evidence.{Item, Ctx}
use network.Fsm.Evidence.Laws.{AllEvidenced}
use network.Fsm.Runtime.{Machine, Transition, find_transition}
use network.Fsm.Runtime.Effects.{Accepts}
use network.Fsm.Change.{
  fsm_label, scope, change_transitions, draft, validated, risk_assessed, authorized,
  g_2_1_validated,
}
use network.Engines.ConfigIr.{ConfigIr}
use network.Engines.Autonomy.{
  Approval, DecisionReadiness, all_true, AutonomyDecision, AutonomyAuthority,
}
use network.Engines.Driver.{Environment, Engine, Action, ◌>>=◌, ◌>>◌, new_evs, only, drive}
use network.Engines.Driver.Laws.{Takes, Placed, Driven, drive_takes}
use network.Engines.Driver.Items.{new_evs-Evidences, Placed-after}
use network.Engines.Change.{
  FabricResult, Stages, PreparedChange, is_pass, is_verdict_blocked, undecided, engine_actor,
  decision_of,
}
use network.Engines.Change.Evidence.{g_2_1-accepts_noted, g_2_1-accepts_modeled}

label_known : contains fsm_label fsm_labels ≡ true
unfolding contains
label_known = refl

-- The call has returned a prepared change that reports this state, and the FSM is in it.
abbrev pub PreparedIn :
    {Plan Blast : Type 0} (rec : Recorder)
    → Environment
    → String
    → Engine (rec.Log)
    → Result (PreparedChange Plan Blast) × Engine (rec.Log)
    → Type 0
PreparedIn {Plan} {Blast} rec env final e r =
    (p : PreparedChange Plan Blast) × (p.final_state ≡ final)
    × Driven rec env fsm_label change_transitions final p e r

module _ (rec : Recorder) (env : Environment) (takes : Takes rec env) {Plan Blast : Type 0} where
  -- A step of the spine: new evidence, an attempt of an entry that accepts it, and what follows.
  pub step_takes :
      (change_id : String) (kinds : List String) (s target final : String) (t : Transition)
      (ctx : List Item → Ctx) (rest : List Item → Action (rec.Log) (PreparedChange Plan Blast))
      (e : Engine (rec.Log))
      → is_filled change_id ≡ true
      → Placed rec env fsm_label change_transitions s e
      → find_transition s target change_transitions ≡ some t
      → is_filled s ≡ true
      → is_filled target ≡ true
      → is_filled t.guard_id ≡ true
      → Accepts t (ctx (new_evs-Evidences env scope kinds e).items)
      → ((new : List Item) (after : Engine (rec.Log))
          → AllEvidenced scope kinds (only new)
          → Placed rec env fsm_label change_transitions target after
          → PreparedIn rec env final after (rest new after))
      → PreparedIn rec env final e (
          (new_evs env scope kinds >>= λ new.
          drive rec env engine_actor change_id target (ctx new) >> rest new)
            e)
  step_takes change_id kinds s target final t ctx rest e named here found fs ft fg accepts go =
      let v = new_evs-Evidences env scope kinds e in
      let (mid, ret, there, same) =
        drive_takes rec env takes fsm_label change_transitions label_known v.after engine_actor
          change_id s target (ctx v.items) t
          (Placed-after rec env fsm_label change_transitions s v here) found accepts fs ft fg
          named in
      let (p, says, (last, done, at_last, counted)) = go v.items mid v.shown there in
      (
        p,
        says,
        (
          last,
          rw (v.returns, ret) done,
          at_last,
          counted ∙ same ∙ ap (λ (m : Machine (rec.Log)). m.counters) v.same,
        ),
      )

items_of : {L : Type 0} → Result (List Item) × Engine L → List Item
items_of (err x, e) = []
items_of (ok items, e) = items

abbrev pub noted : Bool → List String
noted b =
    if b
    then "validation_fabric:NOT_MODELED" ∷ "validation_fabric:not_modeled_recorded" ∷ []
    else []

pub validated_accepts :
    {L : Type 0} (env : Environment) (b : Bool) (e : Engine L)
    → (g_2_1_validated
        (only (new_evs-Evidences env scope ("validation_fabric:PASS" ∷ noted b) e).items)).accepted
      ≡ true
unfolding new_evs items_of
validated_accepts env true e =
    g_2_1-accepts_noted _
      (new_evs-Evidences env scope ("validation_fabric:PASS" ∷ noted true) e).shown
validated_accepts env false e =
    let v = new_evs-Evidences env scope ("validation_fabric:PASS" ∷ noted false) e in
    subst (λ (items : List Item). (g_2_1_validated (only items)).accepted ≡ true)
      (ap items_of v.returns) (g_2_1-accepts_modeled (env.new_id e.calls) (env.filled e.calls))

-- The DAG engine answers with a plan, or refuses with a typed failure.
abbrev pub Answers : {Plan : Type 0} → Result Plan → Type 0
Answers {Plan} r = ((plan : Plan) × (r ≡ ok plan)) ⊎ ((x : Failure) × (r ≡ err (failed x)))

abbrev pub planned_to : {Plan : Type 0} → Result Plan → String → String
planned_to (err x) later = validated
planned_to (ok plan) later = later

-- Where the last step leaves the change.
abbrev pub decided : DecisionReadiness → AutonomyDecision → String
decided readiness d =
    if is_verdict_blocked d.verdict || not (all_true readiness) || undecided d
    then risk_assessed
    else authorized

-- The state in which `prepare` is to leave a change: DRAFT if the fabric does not pass it,
-- VALIDATED if the DAG is refused, and else what the autonomy authority decides.
abbrev pub destination :
    {Plan Blast : Type 0}
    → Stages Plan Blast
    → AutonomyAuthority
    → ConfigIr
    → DecisionReadiness
    → Option Approval
    → FabricResult
    → Blast
    → String
destination stages autonomy ir readiness approval f blast =
    if not (is_pass f.verdict)
    then draft
    else planned_to (stages.dag ir)
        (decided readiness (decision_of stages autonomy ir approval f blast))
