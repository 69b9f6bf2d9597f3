-- ===== src/Tests/Services.antt =====
-- core/cache.py, core/timeauth.py, engines/verification.py: calls at concrete inputs.
use network.Prelude.{
  ℕ, ◌≡◌, refl, ◌≢◌, ◌⊎◌, true, false, none, some, List, [], ◌∷◌, Memᴰ, String, str_eq, eq_iff,
  contains, arith, ◌+++◌,
}
use network.Prelude.Order.{unique, sorted}
use network.Prelude.Decimal.{decimal}
use network.Prelude.Dict.{lookup, insert}
use network.Core.Failures.{ok}
use network.Core.Cache.{Hashable, LruCache, new_cache, no_stats, find, get, set}
use network.Core.Cache.Laws.{Call, calls, IsWellFormed, new_cache-IsWellFormed, get-set}
use network.Core.TimeAuth.{
  synced, Datetime, TimeAuthority, FreshnessVerdict, evaluate, age_seconds, now, require_aware,
  verdict, seconds,
}
use network.Fsm.Evidence.{Ctx, Item, ev}
use network.Fsm.Change.{scope}
use network.Engines.Cleanup.{minus}
use network.Engines.Verification
use network.Engines.Verification.{
  allow, deny, guest, internal, Zone, PolicyRule, NetworkIntent, service_up, pass, fail, TestSpec,
  TestResult, VerificationReport, all_pass, zone_names, derive, ids, missing_ids, with_outcome,
  evidence_for_fsm2,
}
use network.Engines.Verification.Laws.{
  Resulted, evaluate_partition, all_pass_sound, empty_report_accepted,
}
use network.Engines.Verification.Matrix.{Covers, derive-Covers}

abbrev texts : Hashable String
texts = record { same = str_eq; same_iff = eq_iff }

abbrev empty_pair : LruCache String ℕ
empty_pair = record { capacity = 2; entries = []; stats = no_stats }

abbrev three_writes : List (Call String ℕ)
three_writes =
    Call.call_set "a" 1 ∷ Call.call_set "b" 2 ∷ Call.call_get "a" none ∷ Call.call_set "c" 3 ∷ []

new_cache-IsWellFormed_example : IsWellFormed texts (calls texts three_writes empty_pair)
unfolding new_cache
new_cache-IsWellFormed_example = new_cache-IsWellFormed texts 2 three_writes refl

abbrev full_pair : LruCache String ℕ
full_pair = record { capacity = 2; entries = ("a", 1) ∷ ("b", 2) ∷ []; stats = no_stats }

full_pair-IsWellFormed : IsWellFormed texts full_pair
unfolding find
full_pair-IsWellFormed = record {
  positive = omega arith;
  bounded = omega arith;
  distinct = (refl, (refl, tt));
}

get-set_example : (get texts "c" none (set texts "c" 3 full_pair)).0 ≡ some 3
get-set_example = get-set texts "c" 3 none full_pair full_pair-IsWellFormed

abbrev collected : Datetime
collected = record { aware = true; instant = 1000 }

abbrev soon : TimeAuthority
soon = record { clock = record { aware = true; instant = 31001000 }; status = synced }

abbrev in_a_minute : TimeAuthority
in_a_minute = record { clock = record { aware = true; instant = 61001000 }; status = synced }

abbrev in_an_hour : TimeAuthority
in_an_hour = record { clock = record { aware = true; instant = 3600001000 }; status = synced }

abbrev stale_at : ℕ → FreshnessVerdict
stale_at age = record {
  is_ok = false;
  age_seconds = age;
  bound_seconds = some (seconds 60);
  clock_status = synced;
  reason = "STALE: re-collect before proceeding or BLOCK";
  failure_class = none;
}

stale_in_a_minute : evaluate in_a_minute "DEPLOY" collected true ≡ ok (stale_at 61000000)
unfolding evaluate lookup age_seconds now require_aware verdict
stale_in_a_minute = refl

stale_in_an_hour : evaluate in_an_hour "DEPLOY" collected true ≡ ok (stale_at 3600000000)
unfolding evaluate lookup age_seconds now require_aware verdict
stale_in_an_hour = refl

abbrev rule : String → String → ℕ → Verification.RuleAction → PolicyRule
rule src dst p action = record {
  precedence = p;
  src_zone = src;
  dst_zone = dst;
  action = action;
  services = [];
  reason = "policy";
}

abbrev one_zone : NetworkIntent
one_zone = record {
  zones = record { name = "lan"; kind = internal } ∷ [];
  rules = rule "lan" "lan" 20 deny ∷ rule "lan" "lan" 10 allow ∷ [];
  required_services = "dns" ∷ [];
}

abbrev two_specs : List TestSpec
two_specs =
    record {
      test_id = "T000:CONNECTIVITY_ALLOW:lan->lan";
      kind = Verification.connectivity_allow;
      src_zone = "lan";
      dst_zone = "lan";
      derivation = "rule[10:policy]";
    }
    ∷ record {
      test_id = "T001:SERVICE_UP:dns";
      kind = service_up;
      src_zone = "";
      dst_zone = "dns";
      derivation = "required_services bring-up order";
    }
    ∷ []

one_zone_derives : derive one_zone ≡ ok two_specs
unfolding derive zone_names unique sorted contains decimal
one_zone_derives = refl

abbrev two_zones : NetworkIntent
two_zones = record {
  zones =
      record { name = "wan"; kind = Verification.wan }
      ∷ record { name = "lan"; kind = internal }
      ∷ [];
  rules =
      rule "lan" "lan" 10 allow
      ∷ rule "lan" "wan" 20 allow
      ∷ rule "wan" "lan" 30 allow
      ∷ rule "wan" "lan" 5 deny
      ∷ rule "wan" "wan" 40 deny
      ∷ [];
  required_services = [];
}

abbrev allowed_test : String → String → String → String → TestSpec
allowed_test n src dst p = record {
  test_id = n +++ ":CONNECTIVITY_ALLOW:" +++ src +++ "->" +++ dst;
  kind = Verification.connectivity_allow;
  src_zone = src;
  dst_zone = dst;
  derivation = "rule[" +++ p +++ ":policy]";
}

abbrev denied_test : String → String → String → String → TestSpec
denied_test n src dst p = record {
  test_id = n +++ ":CONNECTIVITY_DENY:" +++ src +++ "->" +++ dst;
  kind = Verification.connectivity_deny;
  src_zone = src;
  dst_zone = dst;
  derivation = "rule[" +++ p +++ ":policy]";
}

abbrev four_specs : List TestSpec
four_specs =
    allowed_test "T000" "lan" "lan" "10"
    ∷ allowed_test "T001" "lan" "wan" "20"
    ∷ denied_test "T002" "wan" "lan" "5"
    ∷ denied_test "T003" "wan" "wan" "40"
    ∷ []

two_zones-derive : derive two_zones ≡ ok four_specs
unfolding derive zone_names unique sorted contains decimal
two_zones-derive = refl

derive-Covers_example : Covers two_zones.rules "wan" "lan" four_specs
derive-Covers_example =
    derive-Covers two_zones (record { name = "wan"; kind = Verification.wan })
      (record { name = "lan"; kind = internal }) two_zones-derive (Memᴰ.head refl)
      (Memᴰ.tail (Memᴰ.head refl))

abbrev passing : String → TestResult
passing i = record { test_id = i; outcome = pass; evidence_id = "e-" }

abbrev two_results : List TestResult
two_results = passing "T000:CONNECTIVITY_ALLOW:lan->lan" ∷ passing "T001:SERVICE_UP:dns" ∷ []

abbrev both_passed : VerificationReport
both_passed = record {
  total = 2;
  passed = "T000:CONNECTIVITY_ALLOW:lan->lan" ∷ "T001:SERVICE_UP:dns" ∷ [];
  failed = [];
}

both_pass : Verification.evaluate two_specs two_results ≡ ok both_passed
unfolding Verification.evaluate missing_ids minus with_outcome lookup insert contains
both_pass = refl

all_pass_sound_example :
    (two_specs ≢ [])
    × ((i : String) → contains i (ids two_specs) ≡ true → Resulted two_results i pass)
unfolding all_pass
all_pass_sound_example = all_pass_sound two_specs two_results both_pass refl

evaluate_partition_example :
    ((contains "T001:SERVICE_UP:dns" both_passed.passed ≡ true)
      × (contains "T001:SERVICE_UP:dns" both_passed.failed ≡ false)
      × Resulted two_results "T001:SERVICE_UP:dns" pass)
    ⊎ ((contains "T001:SERVICE_UP:dns" both_passed.failed ≡ true)
        × (contains "T001:SERVICE_UP:dns" both_passed.passed ≡ false)
        × Resulted two_results "T001:SERVICE_UP:dns" fail)
unfolding contains
evaluate_partition_example =
    evaluate_partition two_specs two_results "T001:SERVICE_UP:dns" both_pass refl

abbrev one_failed : VerificationReport
one_failed = record { total = 2; passed = "T1" ∷ []; failed = "T0" ∷ [] }

abbrev accepted_items : List Item
accepted_items =
    ev scope "tests:non_pass_present" "e1"
    ∷ ev scope "tests:human_acceptance_per_non_pass" "e1"
    ∷ []

one_accepted : evidence_for_fsm2 one_failed ("T0" ∷ []) "e1" ≡ ok accepted_items
unfolding evidence_for_fsm2 all_pass unique minus contains
one_accepted = refl

abbrev accepted_ctx : Ctx
accepted_ctx = record { evidence = accepted_items; gate_class = "LOW_RISK" }

abbrev no_tests : VerificationReport
no_tests = record { total = 0; passed = []; failed = [] }

empty_report_accepted_example :
    (items : List Item) × (evidence_for_fsm2 no_tests [] "e1" ≡ ok items)
    × Memᴰ (ev scope "tests:human_acceptance_per_non_pass" "e1") items
empty_report_accepted_example = empty_report_accepted no_tests "e1" refl refl
