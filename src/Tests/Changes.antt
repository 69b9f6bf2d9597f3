-- ===== src/Tests/Changes.antt =====
-- engines/change_engine.py on the ledger store.
use network.Prelude.{refl, inl, true, false, none, some, List, [], ◌∷◌, String, contains, Memᴰ}
use network.Prelude.Dict.{lookup}
use network.Core.Failures.{ok}
use network.Ledger.Models.{StateTransition}
use network.Ledger.Recorder.{ledger_store}
use network.Fsm.Change
use network.Fsm.Change.{change_transitions}
use network.Engines.ConfigIr.{
  gate_class, contains_destructive, destructive, max_reversibility, touches_management_plane,
  touches_mgmt,
}
use network.Engines.Autonomy.{DecisionReadiness, all_true, AutonomyAuthority, m3_controlled, decide}
use network.Engines.Driver.{Engine}
use network.Engines.Driver.Laws.{Driven, Bypassed}
use network.Engines.Change.{Stages, FabricResult, passes, undecided, prepare, veto}
use network.Engines.Change.Spine.{PreparedIn}
use network.Engines.Change.Prepare.{prepare_takes}
use network.Engines.Change.Lawful.{Justified, prepare-Justified}
use network.Engines.Change.Veto.{veto_takes, veto_too_late}
use network.Tests.Drivers.{start-Placed, desk-Takes, desk, engine, one_vlan, gate_bypass-Registered}

abbrev at_state : String → Engine (List StateTransition)
at_state s = engine Change.fsm_label s change_transitions

abbrev passed : FabricResult
passed = record { verdict = passes; preflight_not_modeled = false }

-- Engines that pass every change, order its nodes as they are and find low risk.
abbrev calm : Stages (List String) String
calm = record {
  fabric = λ ir. ok passed;
  dag = λ ir. ok ("n1" ∷ []);
  blast = λ ir. ok "LOW_RISK";
  risk_class = λ risk. risk;
}

abbrev at_m3 : AutonomyAuthority
at_m3 = record { ceiling = m3_controlled }

abbrev all_ready : DecisionReadiness
all_ready = record {
  intent_compiled = some true;
  fabric_pass = some true;
  dag_built = some true;
  blast_recorded = some true;
  rollback_ready = some true;
  twin_fresh = some true;
  capability_confirmed = some true;
  no_conflicting_change = some true;
}

prepare_takes_example :
    PreparedIn ledger_store desk "AUTHORIZED"
      (at_state "DRAFT")
      (prepare ledger_store desk calm at_m3 "chg-1" one_vlan all_ready none (at_state "DRAFT"))
unfolding decide undecided all_true gate_class contains contains_destructive destructive
    max_reversibility touches_management_plane touches_mgmt lookup
prepare_takes_example =
    prepare_takes ledger_store desk desk-Takes calm at_m3 "chg-1" refl one_vlan all_ready none
      passed "LOW_RISK" (at_state "DRAFT") refl (inl ("n1" ∷ [], refl)) refl (start-Placed _ _ _)

prepare-Justified_example : Justified calm one_vlan all_ready none passed
prepare-Justified_example =
    prepare-Justified ledger_store desk desk-Takes calm at_m3 "chg-1" refl one_vlan all_ready none
      passed "LOW_RISK" (at_state "DRAFT") (prepare_takes_example).2.0 (prepare_takes_example).0
      refl (inl ("n1" ∷ [], refl)) refl (start-Placed _ _ _) (prepare_takes_example).2.1
      (prepare_takes_example).1

veto_takes_example :
    Driven ledger_store desk Change.fsm_label change_transitions "REJECTED" tt
      (at_state "VALIDATED")
      (veto ledger_store desk "chg-1" "chief" "wrong window" [] (at_state "VALIDATED"))
veto_takes_example =
    veto_takes ledger_store desk "chg-1" "chief" "wrong window" [] refl "VALIDATED"
      (at_state "VALIDATED") desk-Takes (Memᴰ.tail (Memᴰ.head refl)) (start-Placed _ _ _)

veto_too_late_example :
    Bypassed
      (at_state "ARMED")
      (veto ledger_store desk "chg-1" "chief" "wrong window" [] (at_state "ARMED"))
veto_too_late_example =
    veto_too_late ledger_store desk "chg-1" "chief" "wrong window" [] refl (at_state "ARMED")
      gate_bypass-Registered refl
