-- ===== src/Tests/Cleanup.antt =====
-- engines/cleanup.py: one change with two temporary resources, and what is seen of them.
use network.Prelude.{◌≡◌, refl, ◌≢◌, none, some, [], ◌∷◌, String, contains}
use network.Prelude.Order.{sorted}
use network.Prelude.Dict.{Dict, lookup, insert}
use network.Core.Failures.{ok}
use network.Core.Counters.{new, increment, assert_release_gate}
use network.Fsm.Evidence.{Item}
use network.Engines.Cleanup.{
  TempResource, acl, PreservedApproval, CleanupReport, CleanupManager, minus, count_leaks, reported,
  verify, Observed, evidence_for_fsm2,
}
use network.Engines.Cleanup.Laws.{is_leak, verify-leaked, leak_blocks_release}

abbrev resource : String → TempResource
resource i = record { resource_id = i; kind = acl; description = ""; created_by_node = "n1" }

abbrev two : Dict TempResource
two = ("acl-1", resource "acl-1") ∷ ("acl-2", resource "acl-2") ∷ []

abbrev manager : CleanupManager
manager = record { counters = new; registered = ("c1", two) ∷ [] }

abbrev one_gone : Observed
one_gone = ("acl-1" ∷ [], none, [])

abbrev leaking : CleanupReport
leaking = record {
  change_id = "c1";
  registered = "acl-1" ∷ "acl-2" ∷ [];
  removed = "acl-1" ∷ [];
  preserved = [];
  leaked = "acl-2" ∷ [];
}

abbrev counted : CleanupManager
counted = record manager {
  counters = record { values = insert "cleanup_leaks" ("c1:acl-2:ACL" ∷ []) new.values };
}

one_leaks : verify "c1" one_gone manager ≡ (ok leaking, counted)
unfolding verify reported minus count_leaks contains lookup insert sorted increment new
one_leaks = refl

verify-leaked_example : contains "acl-2" leaking.leaked ≡ is_leak two one_gone "acl-2"
unfolding lookup
verify-leaked_example =
    verify-leaked "c1" two one_gone manager counted leaking "acl-2" refl one_leaks

leak_blocks_release_example :
    (assert_release_gate counted.counters ≢ ok tt)
    × ((i : Item) → evidence_for_fsm2 leaking "e1" ≢ ok i)
unfolding lookup
leak_blocks_release_example =
    leak_blocks_release "c1" two one_gone manager counted leaking "e1" refl one_leaks (λ e. cc)

abbrev consent : PreservedApproval
consent = record { rbac_identity = "chief"; reason = "needed by the next change" }

abbrev one_kept : Observed
one_kept = ("acl-1" ∷ [], some consent, "acl-2" ∷ [])

abbrev tidy : CleanupReport
tidy = record {
  change_id = "c1";
  registered = "acl-1" ∷ "acl-2" ∷ [];
  removed = "acl-1" ∷ [];
  preserved = "acl-2" ∷ [];
  leaked = [];
}

none_leaks : verify "c1" one_kept manager ≡ (ok tidy, manager)
unfolding verify reported minus count_leaks contains lookup sorted
none_leaks = refl
