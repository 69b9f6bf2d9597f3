-- ===== src/Tests/Entities.antt =====
-- fsm/: runs of a link, of a recovery and of a device.
use network.Prelude.{◌≡◌, refl, List, [], ◌∷◌, ◌++◌, contains}
use network.Ledger.Models.{StateTransition, state_transition}
use network.Ledger.Recorder.{ledger_store, append_row}
use network.Fsm.Evidence.{Ctx, pass_if_all, pass_if_any, evidence_of, missing_kinds, found_ids}
use network.Fsm.Runtime.{Machine, Request, fire, run, find_transition}
use network.Fsm.Runtime.Runs.{Asked}
use network.Fsm.Link.{link_transitions, g_4_1_inferred, g_4_5_probable, g_4_7_path_verified}
use network.Fsm.Link.Safety.{Proved, verified_needs_proof}
use network.Fsm.Recovery.{
  recovery_transitions, g_5_2_step, g_5_3_recovered, g_5_4_into_l5, first_evidence,
}
use network.Fsm.Recovery.Safety.{HumanDecided, destructive_needs_human}
use network.Fsm.Device.{device_transitions, g_1_7_modeled, g_1_8_managed}
use network.Tests.Samples.{items, evidence, ask, machine}

abbrev link_ctx : Ctx
link_ctx = record {
  evidence =
      items "DIRECT_NEIGHBOR" ("passive:mac_arp_cooccurrence" ∷ "passive:bidirectional_match" ∷ [])
      ++ items "PHYSICAL_PATH" ("human:explicit_confirmation" ∷ []);
  gate_class = "";
}

abbrev new_link : Machine (List StateTransition)
new_link = machine "FSM-4_LINK" "UNKNOWN" link_transitions

abbrev to_verified : List Request
to_verified =
    ask link_ctx "t1" "INFERRED"
    ∷ ask link_ctx "t2" "DIRECT_NEIGHBOR_PROBABLE"
    ∷ ask link_ctx "t3" "PHYSICAL_PATH_VERIFIED"
    ∷ []

link_verifies : (run ledger_store new_link to_verified).fsm.state ≡ "PHYSICAL_PATH_VERIFIED"
unfolding run fire link_transitions contains state_transition append_row g_4_1_inferred
    g_4_5_probable g_4_7_path_verified pass_if_all pass_if_any evidence_of find_transition
    missing_kinds found_ids
link_verifies = refl

verified_needs_proof_example : Asked Proved to_verified
unfolding contains
verified_needs_proof_example =
    verified_needs_proof ledger_store new_link to_verified refl refl (rw link_verifies)

abbrev conflicting_link : Machine (List StateTransition)
conflicting_link = machine "FSM-4_LINK" "CONFLICTING" link_transitions

abbrev recovery_ctx : Ctx
recovery_ctx = evidence "" "SERVICE_REACHABILITY" (
    "attempt:L4_failed" ∷ "gate:DESTRUCTIVE_human_decision" ∷ "device:reachable_again"
    ∷ "identity:reconfirmed" ∷ "state:reclassified" ∷ [])

abbrev fourth_level : Machine (List StateTransition)
fourth_level = machine "FSM-5_RECOVERY" "ESCALATING_L4" recovery_transitions

abbrev to_destructive : List Request
to_destructive = ask recovery_ctx "t1" "ESCALATING_L5" ∷ []

abbrev to_recovered : List Request
to_recovered = ask recovery_ctx "t1" "ESCALATING_L5" ∷ ask recovery_ctx "t2" "RECOVERED" ∷ []

recovery_destroys : (run ledger_store fourth_level to_destructive).fsm.state ≡ "ESCALATING_L5"
unfolding run fire recovery_transitions contains state_transition append_row g_5_2_step
    g_5_4_into_l5 first_evidence pass_if_all pass_if_any evidence_of find_transition missing_kinds
    found_ids
recovery_destroys = refl

recovery_recovers : (run ledger_store fourth_level to_recovered).fsm.state ≡ "RECOVERED"
unfolding run fire recovery_transitions contains state_transition append_row g_5_2_step
    g_5_3_recovered g_5_4_into_l5 first_evidence pass_if_all pass_if_any evidence_of find_transition
    missing_kinds found_ids
recovery_recovers = refl

destructive_needs_human_example : Asked HumanDecided to_destructive
unfolding contains
destructive_needs_human_example =
    destructive_needs_human ledger_store fourth_level to_destructive refl refl
      (rw recovery_destroys)

abbrev device_ctx : Ctx
device_ctx = record {
  evidence =
      items "CONFIGURATION"
        ("twin_claims_accepted" ∷ "gaps_list_emitted" ∷ "reconciliation_baseline_stored" ∷ [])
      ++ items "SERVICE_REACHABILITY"
          ("monitoring_collectors_bound" ∷ "recovery_path_not_lost" ∷ []);
  gate_class = "";
}

abbrev discovered_device : Machine (List StateTransition)
discovered_device = machine "FSM-1_DEVICE" "DISCOVERED" device_transitions

abbrev to_managed : List Request
to_managed = ask device_ctx "t1" "MODELED" ∷ ask device_ctx "t2" "MANAGED" ∷ []

device_managed : (run ledger_store discovered_device to_managed).fsm.state ≡ "MANAGED"
unfolding run fire device_transitions contains state_transition append_row g_1_7_modeled
    g_1_8_managed pass_if_all pass_if_any evidence_of find_transition missing_kinds found_ids
device_managed = refl

abbrev bootstrapped_device : Machine (List StateTransition)
bootstrapped_device = machine "FSM-1_DEVICE" "BOOTSTRAPPED" device_transitions
