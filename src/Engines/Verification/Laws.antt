-- ===== src/Engines/Verification/Laws.antt =====
-- engines/verification.py: what a report says of the results, and what its evidence is worth.
use network.Prelude.{
  ◌≡◌, refl, ◌≢◌, ◌⊎◌, inl, inr, Bool, true, false, ◌&&◌, Option, none, some, List, [], ◌∷◌, Memᴰ,
  String, str_eq, eq_iff, arith, Bool-cases, contains, is_empty, length,
}
use network.Prelude.Order.{unique, contains-unique}
use network.Prelude.Dict.{Dict, lookup, insert, lookup-insert}
use network.Core.Failures.{ok, is_some}
use network.Fsm.Evidence.{Ctx, Item, ev}
use network.Fsm.Evidence.Laws.{has_evidence-ne_nil, ev-Backs}
use network.Fsm.Change.{scope, g_2_10_verified}
use network.Engines.Cleanup.{minus}
use network.Engines.Cleanup.Laws.{contains-minus}
use network.Engines.Verification.{
  Outcome, pass, fail, TestSpec, TestResult, VerificationReport, all_pass, by_id_onto, by_id, ids,
  missing_ids, is_pass, is_fail, with_outcome, evaluate, evidence_for_fsm2,
}

contains-with_outcome :
    (test : Option Outcome → Bool) (m : Dict Outcome) (is : List String) (i : String)
    → contains i (with_outcome test m is) ≡ (contains i is && test (lookup i m))
unfolding with_outcome contains
contains-with_outcome test m [] i = refl
contains-with_outcome test m (j ∷ is) i =
    ground (arith, contains-with_outcome test m is i, eq_iff i j)

missing_ids-found :
    (m : Dict Outcome) (is : List String) (i : String)
    → is_empty (missing_ids m is) ≡ true
    → contains i is ≡ true
    → is_some (lookup i m) ≡ true
unfolding missing_ids contains
missing_ids-found m [] i h c = cc
missing_ids-found m (j ∷ is) i h c = ground (arith, missing_ids-found m is i, eq_iff i j)

-- One of the results is of this test and has this outcome.
abbrev pub Resulted : List TestResult → String → Outcome → Type 0
Resulted results i o = (r : TestResult) × Memᴰ r results × (r.test_id ≡ i) × (r.outcome ≡ o)

by_id_onto-Resulted :
    (m : Dict Outcome) (rs : List TestResult) (i : String) (o : Outcome)
    → lookup i (by_id_onto m rs) ≡ some o
    → (lookup i m ≡ some o) ⊎ Resulted rs i o
by_id_onto-Resulted m [] i o h = inl h
by_id_onto-Resulted m (r ∷ rs) i o h =
    elim (by_id_onto-Resulted (insert r.test_id r.outcome m) rs i o h) [
      | inr (x, mem, e, f) ↦ inr (x, Memᴰ.tail mem, e, f)
      | inl e ↦ elim (Bool-cases (str_eq r.test_id i)) [
        | inl same ↦ inr (
          r,
          Memᴰ.head refl,
          (eq_iff r.test_id i).0 same,
          ground (arith, lookup-insert r.test_id i r.outcome m),
        )
        | inr other ↦ inl (ground (arith, lookup-insert r.test_id i r.outcome m))
      ]
    ]

by_id-Resulted :
    (rs : List TestResult) (i : String) (o : Outcome)
    → lookup i (by_id rs) ≡ some o
    → Resulted rs i o
unfolding lookup
by_id-Resulted rs i o h = elim (by_id_onto-Resulted [] rs i o h) [ inl e ↦ absurd (cc) | inr r ↦ r ]

-- What is known where `evaluate` returns.
record Evaluated (specs : List TestSpec) (results : List TestResult) (r : VerificationReport)
    : Type 0 where
  none_missing : is_empty (missing_ids (by_id results) (ids specs)) ≡ true
  total_is : r.total ≡ length specs
  passed_is : r.passed ≡ with_outcome is_pass (by_id results) (ids specs)
  failed_is : r.failed ≡ with_outcome is_fail (by_id results) (ids specs)

evaluate-Evaluated :
    (specs : List TestSpec) (results : List TestResult) {r : VerificationReport}
    → evaluate specs results ≡ ok r
    → Evaluated specs results r
unfolding evaluate
evaluate-Evaluated specs results h = record {
  none_missing = ground arith;
  total_is = ground arith;
  passed_is = ground arith;
  failed_is = ground arith;
}

outcome_of : (o : Option Outcome) → is_some o ≡ true → (o ≡ some pass) ⊎ (o ≡ some fail)
outcome_of none h = cc
outcome_of (some pass) h = inl refl
outcome_of (some fail) h = inr refl

-- A report that is returned puts each planned test on one side only: under `passed` with a result
-- that passed, or under `failed` with a result that failed.
pub evaluate_partition :
    (specs : List TestSpec) (results : List TestResult) (i : String) {r : VerificationReport}
    → evaluate specs results ≡ ok r
    → contains i (ids specs) ≡ true
    → ((contains i r.passed ≡ true) × (contains i r.failed ≡ false) × Resulted results i pass)
      ⊎ ((contains i r.failed ≡ true) × (contains i r.passed ≡ false) × Resulted results i fail)
evaluate_partition specs results i h c =
    let e = evaluate-Evaluated specs results h in
    let p = contains-with_outcome is_pass (by_id results) (ids specs) i in
    let f = contains-with_outcome is_fail (by_id results) (ids specs) i in
    elim (outcome_of (lookup i (by_id results))
      (missing_ids-found (by_id results) (ids specs) i e.none_missing c)) [
        | inl o ↦ inl (
          rw (e.passed_is) (ground (arith, p, o)),
          rw (e.failed_is) (ground (arith, f, o)),
          by_id-Resulted results i pass o,
        )
        | inr o ↦ inr (
          rw (e.failed_is) (ground (arith, f, o)),
          rw (e.passed_is) (ground (arith, p, o)),
          by_id-Resulted results i fail o,
        )
      ]

not_failed : (xs : List String) (i : String) → is_empty xs ≡ true → contains i xs ≡ false
unfolding contains
not_failed [] i h = refl
not_failed (x ∷ xs) i h = cc

-- If a report that is returned is all-pass, there is a planned test, and each has a result that
-- passed.
pub all_pass_sound :
    (specs : List TestSpec) (results : List TestResult) {r : VerificationReport}
    → evaluate specs results ≡ ok r
    → all_pass r ≡ true
    → (specs ≢ []) × ((i : String) → contains i (ids specs) ≡ true → Resulted results i pass)
unfolding all_pass
all_pass_sound specs results {r} h a = (
  λ e. ground (arith, (evaluate-Evaluated specs results h).total_is),
  λ i c. elim (evaluate_partition specs results i h c) [
    | inl (p, f, x) ↦ x
    | inr (f, p, x) ↦ absurd (ground (arith, not_failed r.failed i))
  ],
)

-- Where evidence is made of a report with a failed test, every failed test was accepted by a
-- human.
pub evidence_needs_acceptance :
    (report : VerificationReport) (acceptances : List String) (eid i : String) {items : List Item}
    → evidence_for_fsm2 report acceptances eid ≡ ok items
    → contains i report.failed ≡ true
    → contains i acceptances ≡ true
unfolding evidence_for_fsm2 all_pass
evidence_needs_acceptance report acceptances eid i h f = ground (
  arith,
  not_failed report.failed i,
  not_failed (minus (unique report.failed) acceptances) i,
  contains-minus i (unique report.failed) acceptances,
  contains-unique i report.failed,
)

-- Guard 2.10 accepts the evidence that is made of a report, beside any other evidence, if its id is
-- not empty.
pub test_evidence-accepted :
    (report : VerificationReport) (acceptances : List String) (eid : String) (ctx : Ctx)
    {items : List Item}
    → eid ≢ ""
    → evidence_for_fsm2 report acceptances eid ≡ ok items
    → ((e : Item) → Memᴰ e items → Memᴰ e ctx.evidence)
    → (g_2_10_verified ctx).accepted ≡ true
unfolding evidence_for_fsm2 g_2_10_verified
test_evidence-accepted report acceptances eid ctx {items} n h sub =
    let shown = λ (kind : String) (m : Memᴰ (ev scope kind eid) items).
      (has_evidence-ne_nil ctx scope kind).1
        (ev scope kind eid, sub _ m, ev-Backs scope kind eid n) in
    elim (Bool-cases (all_pass report)) [
      | inl a ↦
          let one : items ≡ ev scope "tests:all_pass" eid ∷ [] = ground arith in
          ground (arith, shown "tests:all_pass" (rw one (Memᴰ.head refl)))
      | inr a ↦
          let two : items
              ≡ ev scope "tests:non_pass_present" eid
                ∷ ev scope "tests:human_acceptance_per_non_pass" eid
                ∷ [] =
            ground arith in
          ground (
            arith,
            shown "tests:non_pass_present" (rw two (Memᴰ.head refl)),
            shown "tests:human_acceptance_per_non_pass" (rw two (Memᴰ.tail (Memᴰ.head refl))),
          )
    ]

-- Of a report without tests, evidence of human acceptance is made though no human accepted
-- anything.
pub empty_report_accepted :
    (report : VerificationReport) (eid : String)
    → report.total ≡ 0
    → report.failed ≡ []
    → (items : List Item) × (evidence_for_fsm2 report [] eid ≡ ok items)
      × Memᴰ (ev scope "tests:human_acceptance_per_non_pass" eid) items
unfolding evidence_for_fsm2 all_pass unique minus
empty_report_accepted report eid t f = (
  ev scope "tests:non_pass_present" eid ∷ ev scope "tests:human_acceptance_per_non_pass" eid ∷ [],
  rw (t, f) refl,
  Memᴰ.tail (Memᴰ.head refl),
)
