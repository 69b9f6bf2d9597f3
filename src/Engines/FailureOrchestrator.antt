-- ===== src/Engines/FailureOrchestrator.antt =====
-- engines/failure_orchestrator.py: E18, what happens after a stage has failed.
pub mod Laws
use network.Prelude.{
  ℕ, suc, ◌+◌, Bool, true, false, not, ◌&&◌, ◌||◌, Option, none, some, List, [], ◌∷◌, ◌++◌, String,
  str_eq, ltb, is_empty, length, if◌then◌else◌, ◌+++◌,
}
use network.Prelude.Order.{sorted}
use network.Prelude.Decimal.{decimal}
use network.Core.Failures.{
  Failure, FailureClass, retryable, manual_required, fatal, is_partial, is_retryable,
}
use network.Fsm.Evidence.{Item, ev, join}
use network.Engines.ConfigIr.{
  IrNode, Reversibility, reversible_by_replace, is_irreversible, destructive,
}

pub data Decision : Type 0 where
  continue isolate partial_rollback full_rollback halt : Decision

pub record FailureScenario : Type 0 where
  pub change_id : String
  pub failure : Failure
  pub applied_nodes : List IrNode
  pub failed_node : Option IrNode
  pub remaining_nodes : List IrNode
  pub attempts_used : ℕ
  pub attempt_budget : ℕ
  pub management_path_affected : Bool

abbrev pub one_if_some : Option IrNode → ℕ
one_if_some none = 0
one_if_some (some n) = 1

unfoldable pub attempted_total : FailureScenario → ℕ
attempted_total sc = length sc.applied_nodes + one_if_some sc.failed_node

pub record OrchestratorDecision : Type 0 where
  pub decision : Decision
  pub failure_cls : FailureClass
  pub reasons : List String
  pub count_failed : ℕ
  pub count_total : ℕ

-- `max(total, 1)`
abbrev pub at_least_one : ℕ → ℕ
at_least_one n = if ltb n 1 then 1 else n

unfoldable pub count_failed : FailureScenario → ℕ
count_failed sc = if is_partial sc.failure.cls then sc.failure.count else 1

unfoldable pub count_total : FailureScenario → ℕ
unfolding attempted_total
count_total sc =
    if is_partial sc.failure.cls then sc.failure.total else at_least_one (attempted_total sc)

-- the inner function `out`
abbrev pub out : FailureScenario → Decision → String → OrchestratorDecision
out sc d reason = record {
  decision = d;
  failure_cls = sc.failure.cls;
  reasons = reason ∷ sc.failure.causes;
  count_failed = count_failed sc;
  count_total = count_total sc;
}

unfoldable pub is_stuck : IrNode → Bool
is_stuck n = is_irreversible n.reversibility || destructive n

stuck_ids : List IrNode → List String
stuck_ids [] = []
stuck_ids (n ∷ ns) = let rest = stuck_ids ns in if is_stuck n then n.node_id ∷ rest else rest

abbrev pub is_replaceable : Reversibility → Bool
is_replaceable reversible_by_replace = true
is_replaceable _ = false

-- `any(n.reversibility is not REVERSIBLE_BY_REPLACE for n in nodes)`
any_not_replaceable : List IrNode → Bool
any_not_replaceable [] = false
any_not_replaceable (n ∷ ns) = not (is_replaceable n.reversibility) || any_not_replaceable ns

last_id : String → List IrNode → String
last_id i [] = i
last_id i (n ∷ ns) = last_id n.node_id ns

-- `failed_node is not None and failed_node.node_id == applied_nodes[-1].node_id`
failed_at_tail : Option IrNode → List IrNode → Bool
unfolding last_id
failed_at_tail (some f) (n ∷ ns) = str_eq f.node_id (last_id n.node_id ns)
failed_at_tail _ _ = false

abbrev pub is_manual : FailureClass → Bool
is_manual manual_required = true
is_manual _ = false

abbrev pub is_fatal : FailureClass → Bool
is_fatal fatal = true
is_fatal _ = false

unfoldable pub decide : FailureScenario → OrchestratorDecision
unfolding stuck_ids any_not_replaceable failed_at_tail
decide sc =
    let cls = sc.failure.cls in
    let stuck = stuck_ids sc.applied_nodes in
    if is_manual cls
    then out sc halt "MANUAL_REQUIRED_CLASS"
    else if is_fatal cls
    then out sc halt "FATAL_CLASS: system-level failure — rollback cannot be trusted automatically"
    else if not (is_empty stuck)
    then out sc halt ("IRREVERSIBLE_APPLIED:" +++ join "," (sorted stuck))
    else if is_retryable cls && ltb sc.attempts_used sc.attempt_budget
    then out sc continue (
        "RETRYABLE_BUDGET_REMAINING:"
        +++ decimal sc.attempts_used
        +++ "/"
        +++ decimal sc.attempt_budget)
    else if sc.management_path_affected
    then out sc isolate "MANAGEMENT_PATH_IMPACT"
    else if any_not_replaceable sc.applied_nodes
    then out sc halt "APPLIED_STATE_NOT_AUTO_REVERSIBLE"
    else if is_empty sc.applied_nodes
    then out sc halt "NO_STATE_TO_ROLLBACK"
    else if is_partial cls
    then out sc partial_rollback "PARTIAL_FAILURE_OVER_REPLACEABLE_STATE"
    else if failed_at_tail sc.failed_node sc.applied_nodes
    then out sc partial_rollback "TAIL_NODE_FAILURE"
    else out sc full_rollback "STAGE_LEVEL_FAILURE"

-- The items of guard 2.8, without the key `detail` that no guard reads.
unfoldable pub evidence_for_fsm2 : OrchestratorDecision → String → String → List Item
unfolding ev
evidence_for_fsm2 d decision_id report_id =
    ev "CONFIGURATION" "failure_orchestrator:decision" decision_id
    ∷ ev "CONFIGURATION" "failure_report:counts_and_causes" report_id
    ∷ []
