-- ===== src/Engines/Verification.antt =====
-- engines/verification.py: E19, the test matrix of an intent and its results; the intent's types are
-- those of engines/intent_compiler.py.
pub mod Laws
pub mod Zones
pub mod Matrix
use network.Prelude.{
  ℕ, suc, ◌+◌, ◌*◌, Bool, true, false, not, ◌&&◌, Option, none, some, List, [], ◌∷◌, ◌++◌, map,
  String, str_eq, ltb, length, is_empty, is_filled, contains, if◌then◌else◌, ◌+++◌,
}
use network.Prelude.Order.{sorted, unique}
use network.Prelude.Decimal.{decimal}
use network.Prelude.Dict.{Dict, lookup, insert, keys}
use network.Core.Failures.{Result, ok, err, raise_blocked, is_some, ◌>>=◌}
use network.Fsm.Evidence.{Item, ev, join}
use network.Engines.Cleanup.{minus}

pub data RuleAction : Type 0 where
  allow deny : RuleAction

pub data ZoneKind : Type 0 where
  internal guest dmz mgmt wan : ZoneKind

pub record Zone : Type 0 where
  pub name : String
  pub kind : ZoneKind

pub record PolicyRule : Type 0 where
  pub precedence : ℕ
  pub src_zone : String
  pub dst_zone : String
  pub action : RuleAction
  pub services : List String
  pub reason : String

-- The attributes of an intent that the planner reads.
pub record NetworkIntent : Type 0 where
  pub zones : List Zone
  pub rules : List PolicyRule
  pub required_services : List String

pub data TestKind : Type 0 where
  connectivity_allow connectivity_deny service_up : TestKind

pub data Outcome : Type 0 where
  pass fail : Outcome

pub record TestSpec : Type 0 where
  pub test_id : String
  pub kind : TestKind
  pub src_zone : String
  pub dst_zone : String
  pub derivation : String

pub record TestResult : Type 0 where
  pub test_id : String
  pub outcome : Outcome
  pub evidence_id : String

-- `TestResult.__post_init__`
unfoldable pub test_result : TestResult → Result TestResult
test_result r =
    if is_filled r.evidence_id
    then ok r
    else raise_blocked "TEST_RESULT_EVIDENCE_EMPTY: a result without evidence is not a result (T1)"

pub record VerificationReport : Type 0 where
  pub total : ℕ
  pub passed : List String
  pub failed : List String

unfoldable pub all_pass : VerificationReport → Bool
all_pass r = is_empty r.failed && ltb 0 r.total

unfoldable pub zone_names : NetworkIntent → List String
unfolding unique
zone_names intent = sorted (unique (map (λ z. z.name) intent.zones))

abbrev pub is_between : String → String → PolicyRule → Bool
is_between src dst r = str_eq r.src_zone src && str_eq r.dst_zone dst

rules_between : String → String → List PolicyRule → List PolicyRule
rules_between src dst [] = []
rules_between src dst (r ∷ rs) =
    let rest = rules_between src dst rs in if is_between src dst r then r ∷ rest else rest

-- `min(rules, key=...)`, the first of the least: `r` is the least so far.
least : PolicyRule → List PolicyRule → PolicyRule
least r [] = r
least r (x ∷ xs) = least (if ltb x.precedence r.precedence then x else r) xs

-- `:03d`
abbrev padded : ℕ → String
padded n =
    if ltb n 10 then "00" +++ decimal n else if ltb n 100 then "0" +++ decimal n else decimal n

abbrev pub kind_of : RuleAction → TestKind
kind_of allow = connectivity_allow
kind_of deny = connectivity_deny

abbrev kind_text : RuleAction → String
kind_text allow = "CONNECTIVITY_ALLOW"
kind_text deny = "CONNECTIVITY_DENY"

spec_of : ℕ → String → String → PolicyRule → TestSpec
spec_of i src dst r = record {
  test_id = "T" +++ padded i +++ ":" +++ kind_text r.action +++ ":" +++ src +++ "->" +++ dst;
  kind = kind_of r.action;
  src_zone = src;
  dst_zone = dst;
  derivation = "rule[" +++ decimal r.precedence +++ ":" +++ r.reason +++ "]";
}

pair_spec : List PolicyRule → ℕ → String → String → Result TestSpec
unfolding rules_between spec_of least
pair_spec rules i src dst = elim (rules_between src dst rules) [
  | [] ↦
      raise_blocked
        ("INTENT_MATRIX_INCOMPLETE:" +++ src +++ "->" +++ dst +++ " — cannot derive tests")
  | r ∷ rs ↦ ok (spec_of i src dst (least r rs))
]

-- the inner loop, over the destinations
row : List PolicyRule → ℕ → String → List String → Result (List TestSpec)
unfolding pair_spec
row rules i src [] = ok []
row rules i src (dst ∷ dsts) = do
  s ← pair_spec rules i src dst
  rest ← row rules (suc i) src dsts
  ok (s ∷ rest)

-- the outer loop, over the sources
rows : List PolicyRule → ℕ → List String → List String → Result (List TestSpec)
unfolding row
rows rules i names [] = ok []
rows rules i names (src ∷ srcs) = do
  r ← row rules i src names
  rest ← rows rules (i + length names) names srcs
  ok (r ++ rest)

service_specs : ℕ → List String → List TestSpec
service_specs i [] = []
service_specs i (s ∷ ss) =
    record {
      test_id = "T" +++ padded i +++ ":SERVICE_UP:" +++ s;
      kind = service_up;
      src_zone = "";
      dst_zone = s;
      derivation = "required_services bring-up order";
    }
    ∷ service_specs (suc i) ss

unfoldable pub derive : NetworkIntent → Result (List TestSpec)
unfolding rows service_specs
derive intent =
    let names = zone_names intent in
    rows intent.rules 0 names names >>= λ matrix.
    ok (matrix ++ service_specs (length names * length names) intent.required_services)

-- `{r.test_id: r for r in results}`: a later result of the same test replaces an earlier one.
abbrev pub by_id_onto : Dict Outcome → List TestResult → Dict Outcome
by_id_onto m [] = m
by_id_onto m (r ∷ rs) = by_id_onto (insert r.test_id r.outcome m) rs

abbrev pub by_id : List TestResult → Dict Outcome
by_id rs = by_id_onto [] rs

abbrev pub ids : List TestSpec → List String
ids [] = []
ids (s ∷ ss) = s.test_id ∷ ids ss

unfoldable pub missing_ids : Dict Outcome → List String → List String
missing_ids m [] = []
missing_ids m (i ∷ is) =
    let rest = missing_ids m is in if is_some (lookup i m) then rest else i ∷ rest

abbrev pub is_pass : Option Outcome → Bool
is_pass (some pass) = true
is_pass _ = false

abbrev pub is_fail : Option Outcome → Bool
is_fail (some fail) = true
is_fail _ = false

unfoldable pub with_outcome : (Option Outcome → Bool) → Dict Outcome → List String → List String
with_outcome test m [] = []
with_outcome test m (i ∷ is) =
    let rest = with_outcome test m is in if test (lookup i m) then i ∷ rest else rest

unfoldable pub evaluate : List TestSpec → List TestResult → Result VerificationReport
evaluate specs results =
    let found = by_id results in
    let missing = missing_ids found (ids specs) in
    let extra = minus (keys found) (ids specs) in
    if not (is_empty missing)
    then raise_blocked (
        "TEST_RESULTS_MISSING:"
        +++ join "," (sorted missing)
        +++ " — unexecuted tests are never PASS (T1)")
    else if not (is_empty extra)
    then raise_blocked (
        "TEST_RESULTS_UNPLANNED:"
        +++ join "," (sorted extra)
        +++ " — results outside the derived matrix are rejected")
    else ok (record {
      total = length specs;
      passed = with_outcome is_pass found (ids specs);
      failed = with_outcome is_fail found (ids specs);
    })

-- The items of guard 2.10, without the key `detail` that no guard reads.
unfoldable pub evidence_for_fsm2 : VerificationReport → List String → String → Result (List Item)
unfolding unique
evidence_for_fsm2 report acceptances evidence_id =
    let unaccepted = minus (unique report.failed) acceptances in
    if all_pass report
    then ok (ev "CONFIGURATION" "tests:all_pass" evidence_id ∷ [])
    else if not (is_empty unaccepted)
    then raise_blocked
        ("NON_PASS_WITHOUT_HUMAN_ACCEPTANCE:" +++ join "," (sorted unaccepted) +++ " (2.10)")
    else ok (
        ev "CONFIGURATION" "tests:non_pass_present" evidence_id
        ∷ ev "CONFIGURATION" "tests:human_acceptance_per_non_pass" evidence_id
        ∷ [])
