-- ===== src/Engines/Cleanup.antt =====
-- engines/cleanup.py: the temporary resource manager. A frozenset is a list of its members, and
-- a register the dict of each change's dict of resources.
pub mod Laws
use network.Prelude.{
  Bool, true, false, not, ◌&&◌, Option, none, some, List, [], ◌∷◌, ◌++◌, String, is_filled,
  is_empty, if◌then◌else◌, contains, ◌+++◌,
}
use network.Prelude.Order.{sorted}
use network.Prelude.Dict.{Dict, lookup, insert, keys}
use network.Core.Failures.{Result, ok, err, raise_blocked, is_some, ◌>>=◌}
use network.Core.Counters.{CounterCollector, increment}
use network.Fsm.Evidence.{Item, ev, join}

pub data ResourceKind : Type 0 where
  account acl route vlan session tunnel : ResourceKind

abbrev pub kind_text : ResourceKind → String
kind_text account = "ACCOUNT"
kind_text acl = "ACL"
kind_text route = "ROUTE"
kind_text vlan = "VLAN"
kind_text session = "SESSION"
kind_text tunnel = "TUNNEL"

pub record TempResource : Type 0 where
  pub resource_id : String
  pub kind : ResourceKind
  pub description : String
  pub created_by_node : String

-- `TempResource.__post_init__`
unfoldable pub temp_resource : TempResource → Result TempResource
temp_resource r =
    if is_filled r.resource_id && is_filled r.created_by_node
    then ok r
    else raise_blocked "TEMP_RESOURCE_INCOMPLETE: id and creating node are mandatory"

pub record PreservedApproval : Type 0 where
  pub rbac_identity : String
  pub reason : String

-- `PreservedApproval.__post_init__`
unfoldable pub preserved_approval : PreservedApproval → Result PreservedApproval
preserved_approval a =
    if is_filled a.rbac_identity && is_filled a.reason
    then ok a
    else raise_blocked
        "PRESERVATION_APPROVAL_INCOMPLETE: identity + reason required (no anonymous keeps)"

pub record CleanupReport : Type 0 where
  pub change_id : String
  pub registered : List String
  pub removed : List String
  pub preserved : List String
  pub leaked : List String

unfoldable pub clean : CleanupReport → Bool
clean r = is_empty r.leaked

pub record CleanupManager : Type 0 where
  pub counters : CounterCollector
  pub registered : Dict (Dict TempResource)

abbrev pub bucket_or_empty : Option (Dict TempResource) → Dict TempResource
bucket_or_empty none = []
bucket_or_empty (some b) = b

-- The loop of `register` on the bucket: what was put in before a duplicate stays in.
unfoldable pub register_loop :
    Dict TempResource → List TempResource → Result (Unit {0}) × Dict TempResource
register_loop bucket [] = (ok tt, bucket)
register_loop bucket (r ∷ rs) =
    let rest = register_loop (insert r.resource_id r bucket) rs in
    if is_some (lookup r.resource_id bucket)
    then (raise_blocked ("TEMP_RESOURCE_DUPLICATE:" +++ r.resource_id), bucket)
    else rest

unfoldable pub register :
    String → List TempResource → CleanupManager → Result (Unit {0}) × CleanupManager
register change_id resources m =
    let (r, bucket) = register_loop (bucket_or_empty (lookup change_id m.registered)) resources in
    if not (is_filled change_id)
    then (raise_blocked "CLEANUP_CHANGE_ID_EMPTY", m)
    else (r, record m { registered = insert change_id bucket m.registered })

-- `xs - ys` on sets
unfoldable pub minus : List String → List String → List String
minus [] ys = []
minus (x ∷ xs) ys = let rest = minus xs ys in if contains x ys then rest else x ∷ rest

leak_kind : Option TempResource → String
leak_kind none = ""
leak_kind (some r) = kind_text r.kind

leak_reason : String → Dict TempResource → String → String
unfolding leak_kind
leak_reason change_id bucket i = change_id +++ ":" +++ i +++ ":" +++ leak_kind (lookup i bucket)

-- `for resource_id in leaked: self._counters.increment(...)`
unfoldable pub count_leaks :
    String → Dict TempResource → List String → CounterCollector → Result CounterCollector
unfolding leak_reason
count_leaks change_id bucket [] c = ok c
count_leaks change_id bucket (i ∷ is) c = do
  d ← increment "cleanup_leaks" (leak_reason change_id bucket i) c
  count_leaks change_id bucket is d

report_of : String → List String → List String → List String → CleanupReport
report_of change_id registered removed preserve = record {
  change_id = change_id;
  registered = sorted registered;
  removed = sorted removed;
  preserved = sorted preserve;
  leaked = sorted (minus (minus registered removed) preserve);
}

-- `verify` behind its guards; the counters are written before the report is returned
unfoldable pub reported :
    String
    → Dict TempResource
    → List String
    → List String
    → CleanupManager
    → Result CleanupReport × CleanupManager
unfolding report_of
reported change_id bucket removed preserve m =
    let report = report_of change_id (keys bucket) removed preserve in
    elim (count_leaks change_id bucket report.leaked m.counters) [
      | err e ↦ (err e, m)
      | ok c ↦ (ok report, record m { counters = c })
    ]

abbrev pub Observed : Type 0
Observed = List String × Option PreservedApproval × List String

checked :
    String → Dict TempResource → Observed → CleanupManager → Result CleanupReport × CleanupManager
checked change_id bucket (removed, approval, preserve) m =
    let unknown_removed = minus removed (keys bucket) in
    let unregistered = minus preserve (keys bucket) in
    if not (is_empty unknown_removed)
    then (raise_blocked ("CLEANUP_REMOVAL_UNTRACKED:" +++ join "," (sorted unknown_removed)), m)
    else if not (is_empty preserve) && not (is_some approval)
    then (raise_blocked "CLEANUP_PRESERVATION_WITHOUT_APPROVAL", m)
    else if not (is_empty unregistered)
    then (raise_blocked ("CLEANUP_PRESERVATION_UNTRACKED:" +++ join "," (sorted unregistered)), m)
    else reported change_id bucket removed preserve m

unfoldable pub verify : String → Observed → CleanupManager → Result CleanupReport × CleanupManager
unfolding checked
verify change_id seen m = elim (lookup change_id m.registered) [
  | none ↦ (raise_blocked ("CLEANUP_REGISTER_UNKNOWN:" +++ change_id), m)
  | some bucket ↦ checked change_id bucket seen m
]

unfoldable pub evidence_for_fsm2 : CleanupReport → String → Result Item
unfolding clean ev
evidence_for_fsm2 report evidence_id =
    if not (clean report)
    then raise_blocked ("CLEANUP_LEAK:" +++ join "," report.leaked +++ " — cannot evidence CLEANED")
    else if not (is_empty report.preserved)
    then ok (ev "CONFIGURATION" "temp_resources:preserved_by_approval" evidence_id)
    else ok (ev "CONFIGURATION" "temp_resources:zero" evidence_id)
