-- ===== src/Tests/Drivers.antt =====
-- engines/rollback_engine.py and engines/recovery_engine.py on the ledger store.
use network.Prelude.{
  ℕ, zero, suc, ap, ◌≡◌, refl, ◌≢◌, inr, true, false, some, List, [], ◌∷◌, String, contains, All,
  arith, eq_iff,
}
use network.Prelude.Dict.{lookup}
use network.Prelude.Order.{sorted}
use network.Core.Counters.{new}
use network.Core.Counters.Laws.{Registered}
use network.Ledger.Models.{StateTransition}
use network.Ledger.Recorder.{ledger_store, has_id-nil}
use Prim.Native.String.{◌∷◌ as prepend}
use network.Fsm.Rollback
use network.Fsm.Rollback.{rollback_transitions}
use network.Fsm.Recovery
use network.Fsm.Recovery.{recovery_transitions}
use network.Fsm.Runtime.{Transition}
use network.Engines.Capability.{CapabilityEngine, supported, recovery_lookup, recovery_methods}
use network.Engines.ConfigIr.{IrNode, ConfigIr, is_irreversible, create, reversible_by_replace}
use network.Engines.Driver.{Environment, Engine}
use network.Engines.Driver.Laws.{Takes, Driven, Bypassed, Placed, ledger_store-Takes}
use network.Engines.Rollback.{RollbackArtifact, hash_ok, configure, complete, plan_from_ir}
use network.Engines.Rollback.Laws.{Configurable, configure-ok, configure_again}
use network.Engines.Rollback.Complete.{complete_takes}
use network.Engines.Rollback.Plan.{Usable, plan-feasible, plan-configure}
use network.Engines.Recovery.{pos, escalate, escalate_into_destructive, recover}
use network.Engines.Recovery.Ladder.{escalate_takes, destructive_takes, recover_takes}
use network.Engines.Recovery.Climbed.{Climbed, escalate-ok}
use network.Tests.Samples.{machine}

-- Ids of different lengths.
pub marks : ℕ → String
marks zero = ""
marks (suc n) = prepend "i" (marks n)

marks-injective : (m n : ℕ) → marks m ≡ marks n → m ≡ n
unfolding marks
marks-injective zero zero h = refl
marks-injective zero (suc n) h = absurd (cc)
marks-injective (suc m) zero h = absurd (cc)
marks-injective (suc m) (suc n) h = ap suc (marks-injective m n (cc))

pub marks-filled : (n : ℕ) → marks (suc n) ≢ ""
unfolding marks
marks-filled n h = absurd (cc)

abbrev pub desk : Environment
desk = record { new_id = λ n. marks (suc n); clock = λ n. n; filled = marks-filled }

pub desk-Takes : Takes ledger_store desk
desk-Takes =
    ledger_store-Takes desk
      (λ m n h. let same : suc m ≡ suc n = marks-injective (suc m) (suc n) h in omega (arith, same))

abbrev pub engine : String → String → List Transition → Engine (List StateTransition)
engine label state table = record { machine = machine label state table; calls = 0 }

pub start-Placed :
    (label state : String) (table : List Transition)
    → Placed ledger_store desk label table state (engine label state table)
start-Placed label state table = (refl, λ n h. has_id-nil (desk.new_id n))

pub gate_bypass-Registered : Registered "gate_bypass" new
unfolding lookup new
gate_bypass-Registered = ([], refl)

abbrev matrix : CapabilityEngine
matrix = record {
  recovery =
      (
        "ios",
        ("configure_replace", record { status = supported; primary = true })
            ∷ ("console_recovery", record { status = supported; primary = false })
            ∷ [],
      )
      ∷ [];
}

abbrev pub vlan : IrNode
vlan = record {
  node_id = "n1";
  target = record { entity_type = "Device"; entity_ref = "sw1" };
  operation = create;
  feature = "vlan";
  vendor_os = "ios";
  parameters = [];
  reversibility = reversible_by_replace;
  requires = [];
  provides = [];
  conflicts = [];
  blocks = [];
  depends_on = [];
  touches_management_plane = false;
}

abbrev pub one_vlan : ConfigIr
one_vlan = record { title = "add a VLAN"; nodes = vlan ∷ []; ir_id = "ir1" }

abbrev artifact : RollbackArtifact
artifact = record {
  mechanism = "configure_replace";
  content = "hostname sw1";
  recorded_hash = "d1";
  preserves_management_path = true;
  all_commands_reversible = true;
  filesystem_prereqs_ok = true;
  recovery_path_verified = true;
}

abbrev digest : String → String
digest content = "d1"

vlan_feasible : (plan_from_ir matrix one_vlan "ios").feasible ≡ true
unfolding plan_from_ir recovery_methods sorted recovery_lookup contains lookup
vlan_feasible = refl

vlan_mechanism : (plan_from_ir matrix one_vlan "ios").mechanism ≡ some "configure_replace"
unfolding plan_from_ir recovery_methods sorted recovery_lookup contains lookup
vlan_mechanism = refl

plan-feasible_example :
    All (λ (n : IrNode). is_irreversible n.reversibility ≡ false) (vlan ∷ [])
    × ((m : String) × ((plan_from_ir matrix one_vlan "ios").mechanism ≡ some m)
        × Usable matrix "ios" m)
plan-feasible_example = plan-feasible matrix one_vlan "ios" vlan_feasible

abbrev at_init : Engine (List StateTransition)
at_init = engine Rollback.fsm_label Rollback.init rollback_transitions

artifact-intact : hash_ok digest artifact ≡ true
unfolding hash_ok
artifact-intact = refl

plan-configure_example :
    Driven ledger_store desk Rollback.fsm_label rollback_transitions Rollback.ready tt at_init (
      configure ledger_store desk matrix digest
        (plan_from_ir matrix one_vlan "ios")
        artifact
        at_init)
plan-configure_example =
    plan-configure matrix one_vlan "ios" ledger_store desk digest artifact at_init desk-Takes
      vlan_feasible vlan_mechanism artifact-intact
      (record { filesystem = refl; management = refl; reversible = refl; recovery = refl }) refl
      (start-Placed _ _ _)

configure-ok_example :
    Configurable matrix digest (plan_from_ir matrix one_vlan "ios") artifact
    × (Rollback.init ≡ Rollback.init)
    × ((plan-configure_example).0.machine.fsm.state ≡ Rollback.ready)
    × ((plan-configure_example).0.machine.counters ≡ new)
configure-ok_example =
    configure-ok ledger_store desk matrix digest (plan_from_ir matrix one_vlan "ios") artifact
      at_init (plan-configure_example).0 refl gate_bypass-Registered (plan-configure_example).1

abbrev not_ready : Engine (List StateTransition)
not_ready = engine Rollback.fsm_label Rollback.not_ready rollback_transitions

configure_again_example : Bypassed not_ready (
    configure ledger_store desk matrix digest
      (plan_from_ir matrix one_vlan "ios")
      artifact
      not_ready)
configure_again_example =
    configure_again ledger_store desk matrix digest (plan_from_ir matrix one_vlan "ios") artifact
      not_ready (configure-ok_example).0 refl gate_bypass-Registered
      (λ h. absurd (cc ((eq_iff Rollback.not_ready Rollback.init).1 h)))

abbrev triggered : Engine (List StateTransition)
triggered = engine Rollback.fsm_label Rollback.rollback_triggered rollback_transitions

complete_takes_example :
    Driven ledger_store desk Rollback.fsm_label rollback_transitions Rollback.rollback_failed tt
      triggered
      (complete ledger_store desk "chg-1" true false true triggered)
complete_takes_example =
    complete_takes ledger_store desk desk-Takes "chg-1" true false true triggered
      (start-Placed _ _ _) refl

abbrev at_level : String → Engine (List StateTransition)
at_level s = engine Recovery.fsm_label s recovery_transitions

escalate_takes_example :
    Driven ledger_store desk Recovery.fsm_label recovery_transitions "ESCALATING_L3" tt
      (at_level "ESCALATING_L2")
      (escalate ledger_store desk matrix "ios" "sw1" (pos 2) (some true) (at_level "ESCALATING_L2"))
escalate_takes_example =
    escalate_takes ledger_store desk desk-Takes matrix "ios" "sw1" 2 (some true)
      (at_level "ESCALATING_L2") refl refl (inr refl) (start-Placed _ _ _) refl

escalate-ok_example :
    Climbed matrix "ios" (pos 2) (some true) (at_level "ESCALATING_L2") (escalate_takes_example).0
escalate-ok_example =
    escalate-ok ledger_store desk matrix "ios" "sw1" (pos 2) (some true) (at_level "ESCALATING_L2")
      (escalate_takes_example).0 refl gate_bypass-Registered (escalate_takes_example).1

destructive_takes_example :
    Driven ledger_store desk Recovery.fsm_label recovery_transitions "ESCALATING_L5" tt
      (at_level "ESCALATING_L4")
      (escalate_into_destructive ledger_store desk matrix "ios" "sw1" "decision-7"
        (at_level "ESCALATING_L4"))
destructive_takes_example =
    destructive_takes ledger_store desk desk-Takes matrix "ios" "sw1" "decision-7"
      (at_level "ESCALATING_L4") refl (start-Placed _ _ _) refl

recover_takes_example :
    Driven ledger_store desk Recovery.fsm_label recovery_transitions "RECOVERED" tt
      (at_level "ESCALATING_L1")
      (recover ledger_store desk "sw1" "" "" "" (at_level "ESCALATING_L1"))
recover_takes_example =
    recover_takes ledger_store desk desk-Takes "sw1" "" "" "" 1 (at_level "ESCALATING_L1") refl
      (start-Placed _ _ _) refl
