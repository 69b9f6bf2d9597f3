-- ===== src/Tests/Engines.antt =====
-- engines/: decisions and reports at concrete inputs.
use network.Prelude.{◌≡◌, refl, ◌≢◌, ◌↔◌, inl, none, [], ◌∷◌, Memᴰ, true, false, contains, All}
use network.Prelude.Dict.{lookup}
use network.Core.Failures.{Failure, partial, manual_required, fatal}
use network.Fsm.Evidence.{Ctx}
use network.Engines.Autonomy.{AutonomyAuthority, m3_controlled, decide, auto_execute, Approval}
use network.Engines.Autonomy.Laws.{MayExecute, decide-auto_execute, decide_ignores_risk}
use network.Engines.ConfigIr.{
  IrNode, ConfigIr, create, reversible_by_replace, irreversible, destructive, touches_mgmt,
  gate_class, max_reversibility, contains_destructive, touches_management_plane,
}
use network.Engines.ConfigIr.Laws.{gate_class-low_risk}
use network.Engines.FailureOrchestrator
use network.Engines.FailureOrchestrator.{FailureScenario, continue}
use network.Engines.FailureOrchestrator.Laws.{Undoable, decide-rollback}

abbrev at_m3 : AutonomyAuthority
at_m3 = record { ceiling = m3_controlled }

decide-auto_execute_example :
    ((decide at_m3 "LOW_RISK" "HIGH_RISK" false none).verdict ≡ auto_execute)
    ↔ MayExecute at_m3 "LOW_RISK" "HIGH_RISK" false
decide-auto_execute_example = decide-auto_execute at_m3 "LOW_RISK" "HIGH_RISK" false none

abbrev signed : Approval
signed = record { rbac_identity = "chief"; mfa_verified = true }

decide_ignores_risk_example :
    let d = decide at_m3 "LOW_RISK" "LOW_RISK" false none in
    let e = decide at_m3 "LOW_RISK" "DESTRUCTIVE" false none in
    (d.verdict ≡ e.verdict)
    × (d.approval_satisfied ≡ e.approval_satisfied)
    × (d.human_decided ≡ e.human_decided)
unfolding contains
decide_ignores_risk_example =
    decide_ignores_risk at_m3 "LOW_RISK" "LOW_RISK" "DESTRUCTIVE" false none refl refl

abbrev vlan_node : IrNode
vlan_node = record {
  node_id = "n1";
  target = record { entity_type = "Device"; entity_ref = "sw1" };
  operation = create;
  feature = "vlan";
  vendor_os = "ios";
  parameters = [];
  reversibility = reversible_by_replace;
  requires = [];
  provides = [];
  conflicts = [];
  blocks = [];
  depends_on = [];
  touches_management_plane = false;
}

abbrev reset_node : IrNode
reset_node = record vlan_node {
  node_id = "n2";
  feature = "factory_reset";
  reversibility = irreversible;
}

abbrev vlan_change : ConfigIr
vlan_change = record { title = "vlan"; nodes = vlan_node ∷ []; ir_id = "ir-1" }

abbrev reset_change : ConfigIr
reset_change = record { title = "reset"; nodes = vlan_node ∷ reset_node ∷ []; ir_id = "ir-2" }

vlan_is_low_risk : gate_class vlan_change ≡ "LOW_RISK"
unfolding gate_class contains_destructive max_reversibility touches_management_plane destructive
    touches_mgmt contains lookup
vlan_is_low_risk = refl

gate_class-low_risk_example :
    (destructive vlan_node ≡ false)
    × (vlan_node.reversibility ≢ irreversible)
    × (touches_mgmt vlan_node ≡ false)
gate_class-low_risk_example =
    gate_class-low_risk vlan_change vlan_node vlan_is_low_risk (Memᴰ.head refl)

abbrev two_of_three : Failure
two_of_three = record {
  cls = partial;
  causes = "no answer" ∷ [];
  count = 2;
  total = 3;
  evidence_ids = [];
  retry_hint = none;
}

abbrev half_applied : FailureScenario
half_applied = record {
  change_id = "c1";
  failure = two_of_three;
  applied_nodes = vlan_node ∷ [];
  failed_node = none;
  remaining_nodes = [];
  attempts_used = 0;
  attempt_budget = 2;
  management_path_affected = false;
}

decide-rollback_example :
    All Undoable half_applied.applied_nodes
    × (half_applied.applied_nodes ≢ [])
    × (half_applied.management_path_affected ≡ false)
    × (partial ≢ manual_required)
    × (partial ≢ fatal)
unfolding FailureOrchestrator.decide FailureOrchestrator.is_stuck destructive contains lookup
decide-rollback_example = decide-rollback half_applied (inl refl)

abbrev report_ctx : Ctx
report_ctx = record {
  evidence =
      FailureOrchestrator.evidence_for_fsm2 (FailureOrchestrator.decide half_applied) "d1" "r1";
  gate_class = "LOW_RISK";
}
