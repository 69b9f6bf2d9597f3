-- ===== src/Ledger/ClaimVerifier.antt =====
-- ledger/claim_verifier.py: whether the evidence of a claim is relevant to it. The attributes that the
-- verifier does not read are left out of the records; texts hold no quotes.
pub mod Laws
use network.Prelude.{
  ℕ, Bool, true, false, not, ◌&&◌, Option, none, some, List, [], ◌∷◌, ◌++◌, String, str_eq, ltb,
  length, is_empty, is_filled, contains, if◌then◌else◌, ◌+++◌,
}
use network.Prelude.Order.{sorted, unique}
use network.Prelude.Dict.{Dict, lookup}
use network.Core.Failures.{is_some}
use network.Fsm.Evidence.{list_repr, text_or}

pub data ParseStatus : Type 0 where
  parsed missing parse_failed unsupported_field : ParseStatus

abbrev pub status_text : ParseStatus → String
status_text parsed = "OK"
status_text missing = "MISSING"
status_text parse_failed = "PARSE_FAILED"
status_text unsupported_field = "UNSUPPORTED_FIELD"

abbrev pub is_parsed : ParseStatus → Bool
is_parsed parsed = true
is_parsed _ = false

pub record Observation : Type 0 where
  pub raw_id : String
  pub parser_id : String
  pub parser_version : String
  pub field : String
  pub parse_status : ParseStatus
  pub superseded_by : Option String

pub record RawArtifact : Type 0 where
  pub event_id : String

pub record Event : Type 0 where
  pub device_id : Option String
  pub command_or_op : String

pub record SubjectEntity : Type 0 where
  pub entity_type : String
  pub entity_ref : String

pub record Claim : Type 0 where
  pub subject_entity : SubjectEntity
  pub predicate : String
  pub evidence_ids : List String

pub record RelevanceVerdict : Type 0 where
  pub admitted : Bool
  pub relevance_check : String
  pub reasons : List String

-- `ClaimVerifier.__init__`: the records by their ids, and the command of each registered parser, none
-- where the registry's `get` raises.
pub record ClaimVerifier : Type 0 where
  pub observations : Dict Observation
  pub artifacts : Dict RawArtifact
  pub events : Dict Event
  pub command_ref : String → String → Option String

-- `artifact` and `event` of an observation
unfoldable pub event_of : ClaimVerifier → Observation → Option Event
event_of cv o = elim (lookup o.raw_id cv.artifacts) [
  | none ↦ none
  | some a ↦ lookup a.event_id cv.events
]

abbrev pub is_device : Claim → Bool
is_device claim = str_eq claim.subject_entity.entity_type "DEVICE"

-- `event.device_id == entity_ref`
abbrev pub is_of_device : Event → String → Bool
is_of_device e ref = elim e.device_id [ none ↦ false | some d ↦ str_eq d ref ]

-- What one evidence item adds: a reason, and the device of an event that the loop has come to.
pub record Finding : Type 0 where
  pub reason : Option String
  pub origin : Option String

-- `if event.device_id`
abbrev pub origin_of : Event → Option String
origin_of e = elim e.device_id [ none ↦ none | some d ↦ if is_filled d then some d else none ]

-- Rule 2 and rule 1, for an item with an event.
unfoldable pub check_event : ClaimVerifier → Claim → String → Observation → Event → Finding
check_event cv claim i o e = elim (cv.command_ref o.parser_id o.parser_version) [
  | none ↦ record {
    reason = some ("PARSER_UNKNOWN:" +++ o.parser_id +++ "@" +++ o.parser_version);
    origin = origin_of e;
  }
  | some command ↦
      if not (str_eq e.command_or_op command)
      then record {
        reason =
            some
              ("COMMAND_REGISTRY_MISMATCH:" +++ i +++ ":" +++ e.command_or_op +++ "!=" +++ command);
        origin = origin_of e;
      }
      else if is_device claim && not (is_of_device e claim.subject_entity.entity_ref)
      then record {
        reason = some (
            "DEVICE_MISMATCH:"
            +++ i
            +++ ":"
            +++ text_or e.device_id "None"
            +++ "!=claimed "
            +++ claim.subject_entity.entity_ref);
        origin = origin_of e;
      }
      else record { reason = none; origin = origin_of e }
]

abbrev pub unfit : String → Finding
unfit why = record { reason = some why; origin = none }

unfoldable pub check_observation : ClaimVerifier → Claim → String → Observation → Finding
check_observation cv claim i o =
    if is_some o.superseded_by
    then unfit ("EVIDENCE_SUPERSEDED:" +++ i)
    else if not (is_parsed o.parse_status)
    then unfit ("EVIDENCE_NOT_PARSED:" +++ i +++ ":" +++ status_text o.parse_status)
    else if not (str_eq o.field claim.predicate)
    then unfit ("EVIDENCE_FIELD_MISMATCH:" +++ i +++ ":" +++ o.field +++ "!=" +++ claim.predicate)
    else elim (event_of cv o) [
      | none ↦ unfit ("EVIDENCE_CHAIN_BROKEN:" +++ i)
      | some e ↦ check_event cv claim i o e
    ]

-- one turn of the loop
unfoldable pub check_item : ClaimVerifier → Claim → String → Finding
check_item cv claim i = elim (lookup i cv.observations) [
  | none ↦ unfit ("EVIDENCE_UNKNOWN:" +++ i)
  | some o ↦ check_observation cv claim i o
]

abbrev pub listed : Option String → List String → List String
listed none xs = xs
listed (some x) xs = x ∷ xs

-- `reasons` behind the loop, and the origins with repetitions
unfoldable pub reasons_of : ClaimVerifier → Claim → List String → List String
reasons_of cv claim [] = []
reasons_of cv claim (i ∷ is) = listed (check_item cv claim i).reason (reasons_of cv claim is)

unfoldable pub origins_of : ClaimVerifier → Claim → List String → List String
origins_of cv claim [] = []
origins_of cv claim (i ∷ is) = listed (check_item cv claim i).origin (origins_of cv claim is)

cross_device : Claim → List String → List String
cross_device claim origins =
    if not (is_device claim) && ltb 1 (length origins)
    then ("CROSS_DEVICE_EVIDENCE_UNDECLARED:" +++ list_repr (sorted origins)) ∷ []
    else []

unfoldable pub verify : ClaimVerifier → Claim → RelevanceVerdict
unfolding cross_device
verify cv claim =
    let is = sorted (unique claim.evidence_ids) in
    let reasons = reasons_of cv claim is ++ cross_device claim (unique (origins_of cv claim is)) in
    record {
      admitted = is_empty reasons;
      relevance_check = if is_empty reasons then "PASS" else "FAIL";
      reasons = sorted reasons;
    }
