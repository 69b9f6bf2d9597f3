-- ===== src/Tests/Samples.antt =====
-- Inputs that the tests share: a machine on the ledger store, requests, and evidence.
use network.Prelude.{none, some, List, [], ◌∷◌, String}
use network.Core.Counters.{new}
use network.Ledger.Models.{OperatorIdentity, StateTransition}
use network.Fsm.Evidence.{Item, Ctx}
use network.Fsm.Runtime.{Transition, Machine, Request}

abbrev pub engineer : OperatorIdentity
engineer = record { kind = "HUMAN"; id = "ops-1"; rbac_role = none; mfa_verified = none }

abbrev pub items : String → List String → List Item
items scope [] = []
items scope (kind ∷ kinds) =
    record { scope = some scope; kind = some kind; evidence_id = some "ev-1"; status = some "OK" }
    ∷ items scope kinds

abbrev pub evidence : String → String → List String → Ctx
evidence gate scope kinds = record { evidence = items scope kinds; gate_class = gate }

abbrev pub ask : Ctx → String → String → Request
ask ctx id target = record {
  entity_ref = "net-1";
  target = target;
  ctx = ctx;
  actor = engineer;
  transition_id = id;
  collected_at = 7;
}

abbrev pub machine : String → String → List Transition → Machine (List StateTransition)
machine label state table = record {
  fsm = record { fsm_label = label; state = state; table = table };
  counters = new;
  log = [];
}
