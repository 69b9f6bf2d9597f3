-- ===== src/Engines/Cleanup/Laws.antt =====
-- engines/cleanup.py: what a report says of the register, and that a leak is never silent.
use network.Prelude.{
  ◌≡◌, refl, ◌≢◌, ◌⊎◌, inl, inr, Bool, true, false, ◌&&◌, not, some, List, [], ◌∷◌, Memᴰ, String,
  arith, Bool-cases, is_empty, eq_iff, contains,
}
use network.Prelude.Order.{contains-sorted}
use network.Prelude.Dict.{Dict, lookup, keys}
use network.Core.Failures.{ok, is_some, >>=-eq-ok, Result-cases}
use network.Core.Counters.{CounterCollector, increment, assert_release_gate}
use network.Core.Counters.Laws.{Tripped, increment-Tripped, Tripped-increment, Tripped-blocks_gate}
use network.Fsm.Evidence.{Ctx, Item, ev, pass_if_any}
use network.Fsm.Evidence.Laws.{has_evidence-ne_nil, ev-Backs}
use network.Fsm.Change.{scope, g_2_12_cleaned}
use network.Engines.Cleanup.{
  TempResource, CleanupReport, CleanupManager, clean, minus, leak_reason, count_leaks, report_of,
  reported, Observed, verify, evidence_for_fsm2,
}

pub contains-minus :
    (s : String) (xs ys : List String)
    → contains s (minus xs ys) ≡ (contains s xs && not (contains s ys))
unfolding minus contains
contains-minus s [] ys = refl
contains-minus s (x ∷ xs) ys = ground (arith, contains-minus s xs ys, eq_iff s x)

-- What is known where `verify` has returned a report.
record Returned (change_id : String) (bucket : Dict TempResource) (seen : Observed)
    (m : CleanupManager) (report : CleanupReport) (m' : CleanupManager) : Type 0 where
  is_report : report ≡ report_of change_id (keys bucket) seen.0 seen.2
  counted : count_leaks change_id bucket report.leaked m.counters ≡ ok m'.counters
  approved : is_empty seen.2 ≡ false → is_some seen.1 ≡ true

reported-Returned :
    (change_id : String) (bucket : Dict TempResource) (removed preserve : List String)
    (m m' : CleanupManager) (report : CleanupReport)
    → reported change_id bucket removed preserve m ≡ (ok report, m')
    → (report ≡ report_of change_id (keys bucket) removed preserve)
      × (count_leaks change_id bucket report.leaked m.counters ≡ ok m'.counters)
unfolding reported
reported-Returned change_id bucket removed preserve m m' report h =
    let made = report_of change_id (keys bucket) removed preserve in
    elim (Result-cases (count_leaks change_id bucket made.leaked m.counters)) [
      | inl (c, e) ↦ ground (arith, e)
      | inr (x, e) ↦ absurd (ground (arith, e))
    ]

verify-Returned :
    (change_id : String) (bucket : Dict TempResource) (seen : Observed) (m : CleanupManager)
    (report : CleanupReport) (m' : CleanupManager)
    → lookup change_id m.registered ≡ some bucket
    → verify change_id seen m ≡ (ok report, m')
    → Returned change_id bucket seen m report m'
unfolding verify
verify-Returned change_id bucket (removed, approval, preserve) m report m' found h =
    let tests : (reported change_id bucket removed preserve m ≡ (ok report, m'))
        × (is_empty preserve ≡ false → is_some approval ≡ true) =
      ground arith in
    let (e, c) = reported-Returned change_id bucket removed preserve m m' report tests.0 in
    record { is_report = e; counted = c; approved = tests.1 }

-- What is registered and was neither seen removed nor preserved.
abbrev pub is_leak : Dict TempResource → Observed → String → Bool
is_leak bucket (removed, approval, preserve) s =
    contains s (keys bucket) && not (contains s removed) && not (contains s preserve)

leaked-report_of :
    (change_id : String) (registered removed preserve : List String) (s : String)
    → contains s (report_of change_id registered removed preserve).leaked
      ≡ (contains s registered && not (contains s removed) && not (contains s preserve))
unfolding report_of
leaked-report_of change_id registered removed preserve s = ground (
  arith,
  contains-sorted s (minus (minus registered removed) preserve),
  contains-minus s (minus registered removed) preserve,
  contains-minus s registered removed,
)

-- A report that is returned for a known change names as leaked exactly the ids that are
-- registered, not seen removed and not preserved.
pub verify-leaked :
    (change_id : String) (bucket : Dict TempResource) (seen : Observed) (m m' : CleanupManager)
    (report : CleanupReport) (s : String)
    → lookup change_id m.registered ≡ some bucket
    → verify change_id seen m ≡ (ok report, m')
    → contains s report.leaked ≡ is_leak bucket seen s
verify-leaked change_id bucket (removed, approval, preserve) m m' report s found h =
    let back = verify-Returned change_id bucket (removed, approval, preserve) m report m' found h in
    rw back.is_report (leaked-report_of change_id (keys bucket) removed preserve s)

not_leaked : (xs : List String) (s : String) → is_empty xs ≡ true → contains s xs ≡ false
unfolding contains
not_leaked [] s h = refl
not_leaked (x ∷ xs) s h = cc

-- If the report is clean, every registered resource was seen removed, or is preserved under an
-- approval.
pub clean_accounts :
    (change_id : String) (bucket : Dict TempResource) (seen : Observed) (m m' : CleanupManager)
    (report : CleanupReport) (s : String)
    → lookup change_id m.registered ≡ some bucket
    → verify change_id seen m ≡ (ok report, m')
    → clean report ≡ true
    → contains s (keys bucket) ≡ true
    → (contains s seen.0 ≡ true) ⊎ ((contains s seen.2 ≡ true) × (is_some seen.1 ≡ true))
unfolding clean contains
clean_accounts change_id bucket (removed, approval, []) m m' report s found h c k = ground (
  arith,
  verify-leaked change_id bucket (removed, approval, []) m m' report s found h,
  not_leaked report.leaked s c,
)
clean_accounts change_id bucket (removed, approval, p ∷ ps) m m' report s found h c k =
    let back = verify-Returned change_id bucket (removed, approval, p ∷ ps) m report m' found h in
    let gone : (contains s removed ≡ true) ⊎ (contains s (p ∷ ps) ≡ true) = ground (
      arith,
      verify-leaked change_id bucket (removed, approval, p ∷ ps) m m' report s found h,
      not_leaked report.leaked s c,
    ) in
    elim gone [ inl r ↦ inl r | inr q ↦ inr (q, back.approved refl) ]

count_leaks-Tripped :
    (change_id : String) (bucket : Dict TempResource) (is : List String) (c c' : CounterCollector)
    → count_leaks change_id bucket is c ≡ ok c'
    → Tripped "cleanup_leaks" c
    → Tripped "cleanup_leaks" c'
unfolding count_leaks
count_leaks-Tripped change_id bucket [] c c' h t = ground (arith, t)
count_leaks-Tripped change_id bucket (i ∷ is) c c' h t =
    let (d, e, rest) =
      >>=-eq-ok (increment "cleanup_leaks" (leak_reason change_id bucket i) c)
        (count_leaks change_id bucket is) h in
    count_leaks-Tripped change_id bucket is d c' rest
      (Tripped-increment "cleanup_leaks" (leak_reason change_id bucket i) "cleanup_leaks" c e t)

leaks_trip :
    (change_id : String) (bucket : Dict TempResource) (is : List String) (c c' : CounterCollector)
    → count_leaks change_id bucket is c ≡ ok c'
    → is ≢ []
    → Tripped "cleanup_leaks" c'
unfolding count_leaks
leaks_trip change_id bucket [] c c' h n = absurd (n refl)
leaks_trip change_id bucket (i ∷ is) c c' h n =
    let (d, e, rest) =
      >>=-eq-ok (increment "cleanup_leaks" (leak_reason change_id bucket i) c)
        (count_leaks change_id bucket is) h in
    count_leaks-Tripped change_id bucket is d c' rest
      (increment-Tripped "cleanup_leaks" (leak_reason change_id bucket i) c e)

-- A report with a leak closes the release gate: with the counters that `verify` leaves, the gate
-- raises, and no evidence for guard 2.12 can be made of the report.
pub leak_blocks_release :
    (change_id : String) (bucket : Dict TempResource) (seen : Observed) (m m' : CleanupManager)
    (report : CleanupReport) (eid : String)
    → lookup change_id m.registered ≡ some bucket
    → verify change_id seen m ≡ (ok report, m')
    → report.leaked ≢ []
    → (assert_release_gate m'.counters ≢ ok tt) × ((i : Item) → evidence_for_fsm2 report eid ≢ ok i)
unfolding evidence_for_fsm2
leak_blocks_release change_id bucket seen m m' report eid found h n = (
  Tripped-blocks_gate "cleanup_leaks" m'.counters (
      leaks_trip change_id bucket report.leaked m.counters m'.counters
        (verify-Returned change_id bucket seen m report m' found h).counted n),
  λ i e. ground (arith, n),
)

-- Guard 2.12 accepts the evidence that is made of a clean report, beside any other evidence, if
-- its id is not empty.
pub cleanup_evidence-accepted :
    (report : CleanupReport) (eid : String) (i : Item) (ctx : Ctx)
    → eid ≢ ""
    → evidence_for_fsm2 report eid ≡ ok i
    → Memᴰ i ctx.evidence
    → (g_2_12_cleaned ctx).accepted ≡ true
unfolding evidence_for_fsm2 g_2_12_cleaned pass_if_any
cleanup_evidence-accepted report eid i ctx n h m =
    let shown = λ (kind : String) (e : i ≡ ev scope kind eid).
      (has_evidence-ne_nil ctx scope kind).1 (i, m, rw e (ev-Backs scope kind eid n)) in
    elim (Bool-cases (clean report)) [
      | inr dirty ↦ absurd (ground arith)
      | inl tidy ↦ elim (Bool-cases (is_empty report.preserved)) [
        | inl none_kept ↦ ground (arith, shown "temp_resources:zero" (ground arith))
        | inr kept ↦ ground (arith, shown "temp_resources:preserved_by_approval" (ground arith))
      ]
    ]
