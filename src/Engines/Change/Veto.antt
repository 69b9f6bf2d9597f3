-- ===== src/Engines/Change/Veto.antt =====
-- engines/change_engine.py: what a veto does before a change is applied.
use network.Prelude.{
  ◌≡◌, refl, ap, true, ◌&&◌, List, [], ◌∷◌, Memᴰ, String, arith, is_filled, contains, All, All-mem,
  some,
}
use network.Core.Counters.Laws.{Registered}
use network.Ledger.Models.{fsm_labels}
use network.Ledger.Recorder.{Recorder}
use network.Fsm.Evidence.{Ctx, pass_with, deny_missing}
use network.Fsm.Evidence.Laws.{AllEvidenced, has_evidence-ne_nil}
use network.Fsm.Runtime.{find_transition, edge, judged, GuardedFsm}
use network.Fsm.Change.{
  fsm_label, scope, change_transitions, draft, validated, planned, risk_assessed, authorized, armed,
  rejected, g_2_14_rejected,
}
use network.Engines.Driver.{Environment, Engine, new_evs}
use network.Engines.Driver.Laws.{Takes, At, Placed, Driven, Bypassed}
use network.Engines.Driver.Items.{drive_shown_takes, drive_new_bypass, new_evs-Evidences}
use network.Engines.Change.{engine_actor, make_veto, veto}

label_known : contains fsm_label fsm_labels ≡ true
unfolding contains
label_known = refl

abbrev pub veto_kinds : List String
veto_kinds = "verdict:REJECTED" ∷ "verdict:reason_recorded" ∷ []

g_2_14-accepts :
    (ctx : Ctx) → AllEvidenced scope veto_kinds ctx → (g_2_14_rejected ctx).accepted ≡ true
unfolding g_2_14_rejected pass_with deny_missing
g_2_14-accepts ctx h = ground (
  arith,
  (has_evidence-ne_nil ctx scope "verdict:REJECTED").1 h.0,
  (has_evidence-ne_nil ctx scope "verdict:reason_recorded").1 h.1.0,
)

-- The states that the table lets a veto leave.
abbrev pub vetoable : List String
vetoable = draft ∷ validated ∷ planned ∷ risk_assessed ∷ authorized ∷ []

abbrev Rejects : String → Type 0
Rejects s =
    (find_transition s rejected change_transitions ≡ some (edge s rejected "2.14" g_2_14_rejected))
    × (is_filled s ≡ true)

rejects : All Rejects vetoable
unfolding find_transition change_transitions
rejects = ((refl, refl), ((refl, refl), ((refl, refl), ((refl, refl), ((refl, refl), tt)))))

module _ (rec : Recorder) (env : Environment) (change_id actor reason : String)
    (evidence_ids : List String)
    (named : (is_filled change_id && is_filled actor && is_filled reason) ≡ true) where
  -- With a recorder that takes every valid record under a new id, and with ids that neither
  -- repeat nor stand in its log, a veto with a change, an actor and a reason takes a change that
  -- is in DRAFT, VALIDATED, PLANNED, RISK_ASSESSED or AUTHORIZED to REJECTED, and moves no
  -- counter.
  pub veto_takes :
      (s : String) (e : Engine (rec.Log))
      → Takes rec env
      → Memᴰ s vetoable
      → Placed rec env fsm_label change_transitions s e
      → Driven rec env fsm_label change_transitions rejected tt e
          (veto rec env change_id actor reason evidence_ids e)
  unfolding veto make_veto judged
  veto_takes s e takes m here =
      let (found, fs) = All-mem Rejects vetoable rejects m in
      rw (named, veto)
        (drive_shown_takes rec env takes fsm_label change_transitions label_known e
          (new_evs env scope veto_kinds e) engine_actor scope veto_kinds change_id s rejected
          (edge s rejected "2.14" g_2_14_rejected) (new_evs-Evidences env scope veto_kinds e) here
          found g_2_14-accepts fs refl refl (ground arith))

  -- A veto of an ARMED change, with all that it asks and counters that know the gate bypass, raises, leaves the change ARMED and counts a
  -- gate bypass.
  pub veto_too_late :
      (e : Engine (rec.Log))
      → Registered "gate_bypass" e.machine.counters
      → At fsm_label change_transitions armed e
      → Bypassed e (veto rec env change_id actor reason evidence_ids e)
  unfolding veto make_veto find_transition change_transitions
  veto_too_late e c here =
      rw (named, veto)
        (drive_new_bypass rec env e engine_actor scope veto_kinds change_id rejected c
          (ap (λ (fsm : GuardedFsm). find_transition fsm.state rejected fsm.table) here))
