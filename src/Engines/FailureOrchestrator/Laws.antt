-- ===== src/Engines/FailureOrchestrator/Laws.antt =====
-- engines/failure_orchestrator.py: what each decision rests on, and that guard 2.8 takes its report.
use network.Prelude.{
  ◌≤◌, ◌<◌, ◌≡◌, refl, ◌≢◌, ◌↔◌, ◌⊎◌, true, false, List, [], ◌∷◌, Memᴰ, String, arith, All,
  is_empty,
}
use network.Core.Failures.{retryable, manual_required, fatal, IsWellFormed}
use network.Fsm.Evidence.{Ctx, Item, ev}
use network.Fsm.Evidence.Laws.{has_evidence-ne_nil, ev-Backs}
use network.Fsm.Change.{scope, g_2_8_failed, g_2_8_partial}
use network.Engines.ConfigIr.{IrNode, Reversibility, reversible_by_replace, destructive}
use network.Engines.FailureOrchestrator.{
  Decision, continue, partial_rollback, full_rollback, FailureScenario, OrchestratorDecision,
  count_failed, count_total, is_stuck, stuck_ids, is_replaceable, any_not_replaceable, is_manual,
  is_fatal, decide, evidence_for_fsm2,
}

-- The node's state can be undone by replacement, and applying it destroyed nothing.
abbrev pub Undoable : IrNode → Type 0
Undoable n = (n.reversibility ≡ reversible_by_replace) × (destructive n ≡ false)

replaceable-eq : (r : Reversibility) → is_replaceable r ≡ true → r ≡ reversible_by_replace
replaceable-eq r h = ground arith

undoable :
    (ns : List IrNode)
    → is_empty (stuck_ids ns) ≡ true
    → any_not_replaceable ns ≡ false
    → All Undoable ns
unfolding stuck_ids any_not_replaceable is_stuck
undoable [] h k = tt
undoable (n ∷ ns) h k = (
  (replaceable-eq n.reversibility (ground arith), ground arith),
  undoable ns (ground arith) (ground arith),
)

abbrev pub IsRollback : Decision → Type 0
IsRollback d = (d ≡ partial_rollback) ⊎ (d ≡ full_rollback)

rollback_tests :
    (sc : FailureScenario)
    → IsRollback (decide sc).decision
    → (is_empty (stuck_ids sc.applied_nodes) ≡ true)
      × (any_not_replaceable sc.applied_nodes ≡ false)
      × (is_empty sc.applied_nodes ≡ false)
      × (sc.management_path_affected ≡ false)
      × (is_manual sc.failure.cls ≡ false)
      × (is_fatal sc.failure.cls ≡ false)
unfolding decide
rollback_tests sc h = ground arith

-- An automatic rollback, partial or full, is decided only over state that was applied and whose
-- nodes can all be undone by replacement, with the management path unaffected and never for a
-- MANUAL_REQUIRED or FATAL failure.
pub decide-rollback :
    (sc : FailureScenario)
    → IsRollback (decide sc).decision
    → All Undoable sc.applied_nodes
      × (sc.applied_nodes ≢ [])
      × (sc.management_path_affected ≡ false)
      × (sc.failure.cls ≢ manual_required)
      × (sc.failure.cls ≢ fatal)
decide-rollback sc h =
    let (free, plain, filled, path, man, fat) = rollback_tests sc h in
    (
      undoable sc.applied_nodes free plain,
      λ e. ground arith,
      path,
      λ e. ground arith,
      λ e. ground arith,
    )

-- A node that destroys or cannot be reversed.
abbrev pub Stuck : IrNode → Type 0
Stuck n = is_stuck n ≡ true

stuck_ids-nil : (ns : List IrNode) → All (λ n. is_stuck n ≡ false) ns → stuck_ids ns ≡ []
unfolding stuck_ids
stuck_ids-nil [] h = refl
stuck_ids-nil (n ∷ ns) h = ground (arith, stuck_ids-nil ns h.1)

nil-stuck_ids :
    (ns : List IrNode) → is_empty (stuck_ids ns) ≡ true → All (λ n. is_stuck n ≡ false) ns
unfolding stuck_ids
nil-stuck_ids [] h = tt
nil-stuck_ids (n ∷ ns) h = (ground arith, nil-stuck_ids ns (ground arith))

retry_tests :
    (sc : FailureScenario)
    → (decide sc).decision ≡ continue
    → (is_empty (stuck_ids sc.applied_nodes) ≡ true)
      × (sc.failure.cls ≡ retryable)
      × (sc.attempts_used < sc.attempt_budget)
unfolding decide
retry_tests sc h = ground arith

retry_back :
    (sc : FailureScenario)
    → stuck_ids sc.applied_nodes ≡ []
    → sc.failure.cls ≡ retryable
    → sc.attempts_used < sc.attempt_budget
    → (decide sc).decision ≡ continue
unfolding decide
retry_back sc h k l = ground arith

-- The change goes on exactly if the failure is RETRYABLE, attempts are left, and no applied node
-- is irreversible or destructive.
pub decide-continue :
    (sc : FailureScenario)
    → ((decide sc).decision ≡ continue) ↔ (
        (sc.failure.cls ≡ retryable)
        × (sc.attempts_used < sc.attempt_budget)
        × All (λ n. is_stuck n ≡ false) sc.applied_nodes)
decide-continue sc = (
  λ h. let (free, cls, left) = retry_tests sc h in (cls, left, nil-stuck_ids sc.applied_nodes free),
  λ (cls, left, free). retry_back sc (stuck_ids-nil sc.applied_nodes free) cls left,
)

decide_counts :
    (sc : FailureScenario)
    → ((decide sc).count_failed ≡ count_failed sc)
      × ((decide sc).count_total ≡ count_total sc)
      × ((decide sc).reasons ≢ [])
unfolding decide
decide_counts sc = ground arith

-- The report of a well-formed failure always counts n of N with 0 < n ≤ N, and gives a reason.
pub decide_reports :
    (sc : FailureScenario)
    → IsWellFormed sc.failure
    → (0 < (decide sc).count_failed)
      × ((decide sc).count_failed ≤ (decide sc).count_total)
      × ((decide sc).reasons ≢ [])
unfolding count_failed count_total
decide_reports sc w = let (f, t, r) = decide_counts sc in ground (arith, f, t, r, w.counted)

-- Guard 2.8 accepts the orchestrator's evidence for FAILED and for PARTIAL, whatever was decided,
-- beside any other evidence, if the two ids are not empty.
pub failure_evidence-accepted :
    (d : OrchestratorDecision) (i j : String) (ctx : Ctx)
    → i ≢ ""
    → j ≢ ""
    → ((e : Item) → Memᴰ e (evidence_for_fsm2 d i j) → Memᴰ e ctx.evidence)
    → ((g_2_8_failed ctx).accepted ≡ true) × ((g_2_8_partial ctx).accepted ≡ true)
unfolding evidence_for_fsm2 g_2_8_failed g_2_8_partial
failure_evidence-accepted d i j ctx hi hj sub =
    let decided = (has_evidence-ne_nil ctx scope "failure_orchestrator:decision").1 (
      ev scope "failure_orchestrator:decision" i,
      sub _ (Memᴰ.head refl),
      ev-Backs scope "failure_orchestrator:decision" i hi,
    ) in
    let reported = (has_evidence-ne_nil ctx scope "failure_report:counts_and_causes").1 (
      ev scope "failure_report:counts_and_causes" j,
      sub _ (Memᴰ.tail (Memᴰ.head refl)),
      ev-Backs scope "failure_report:counts_and_causes" j hj,
    ) in
    ground (arith, decided, reported)
