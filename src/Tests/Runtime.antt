-- ===== src/Tests/Runtime.antt =====
-- core/counters.py, core/failures.py, fsm/evidence.py, fsm/runtime.py: calls at concrete inputs.
use network.Prelude.{◌≡◌, refl, ◌≢◌, List, [], ◌∷◌, String, contains}
use network.Prelude.Dict.{lookup, insert}
use network.Core.Failures.{failure, ok, err, validation_error}
use network.Core.Counters.{CounterCollector, new, increment, assert_release_gate}
use network.Core.Counters.Laws.{increments, increment_blocks_gate}
use network.Ledger.Models.{StateTransition, state_transition}
use network.Ledger.Recorder.{ledger_store, append_row}
use network.Fsm.Evidence.{
  Ctx, Guarded, evidence_of, found_ids, missing_kinds, pass_if_all, pass_if_any,
}
use network.Fsm.Runtime.{Transition, Machine, Request, fire, run, find_transition, moved, judged}
use network.Fsm.Runtime.Effects.{fire_unrecorded}
use network.Fsm.Runtime.Trace.{Told, run-Told}
use network.Fsm.Change.{change_transitions, g_2_1_validated}
use network.Tests.Samples.{evidence, ask, machine}

abbrev once : CounterCollector
once = record { values = insert "gate_bypass" ("ILLEGAL" ∷ []) new.values }

abbrev twice : CounterCollector
twice = record { values = insert "cleanup_leaks" ("x" ∷ []) once.values }

first_increment : increment "gate_bypass" "ILLEGAL" new ≡ ok once
unfolding increment new lookup insert
first_increment = refl

second_increment : increments (("cleanup_leaks", "x") ∷ []) once ≡ ok twice
unfolding increments increment new lookup insert
second_increment = refl

increment_blocks_gate_example : assert_release_gate twice ≢ ok tt
increment_blocks_gate_example =
    increment_blocks_gate "gate_bypass" "ILLEGAL" new (("cleanup_leaks", "x") ∷ []) first_increment
      second_increment

abbrev validated_ctx : Ctx
validated_ctx = evidence "LOW_RISK" "CONFIGURATION" ("validation_fabric:PASS" ∷ [])

abbrev two_kinds : List String
two_kinds = "validation_fabric:PASS" ∷ "rollback:READY" ∷ []

abbrev draft : Machine (List StateTransition)
draft = machine "FSM-2_CHANGE" "DRAFT" change_transitions

abbrev validate : Request
validate = ask validated_ctx "t1" "VALIDATED"

abbrev skip : Request
skip = ask validated_ctx "t2" "APPLYING"

abbrev validation : Transition
validation = record {
  from_state = "DRAFT";
  to_state = "VALIDATED";
  guard_id = "2.1";
  guard = λ ctx. Guarded.returned (g_2_1_validated ctx);
}

abbrev nameless : Request
nameless = record validate { entity_ref = "" }

fire_unrecorded_example :
    fire ledger_store draft nameless ≡ (err validation_error, moved draft nameless)
unfolding find_transition change_transitions g_2_1_validated pass_if_all pass_if_any evidence_of
    missing_kinds found_ids judged
fire_unrecorded_example = fire_unrecorded ledger_store draft nameless validation refl refl refl

abbrev two_requests : List Request
two_requests = validate ∷ skip ∷ []

run-Told_example : Told ledger_store draft (run ledger_store draft two_requests)
unfolding new lookup fire find_transition change_transitions g_2_1_validated pass_if_all pass_if_any
    evidence_of missing_kinds found_ids judged state_transition contains append_row increment
    failure
run-Told_example = run-Told ledger_store draft two_requests ([], refl) ((_, refl), ((_, refl), tt))
