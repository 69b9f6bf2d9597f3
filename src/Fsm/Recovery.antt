-- ===== src/Fsm/Recovery.antt =====
-- fsm/recovery_fsm.py: FSM-5, the recovery hierarchy.
pub mod Safety
use network.Prelude.{
  ℕ, suc, ◌==◌, Bool, true, false, not, ◌&&◌, ◌||◌, Option, none, some, List, [], ◌∷◌, ◌++◌, String,
  str_eq, is_empty, if◌then◌else◌, contains, ◌+++◌, is_filled, or_else,
}
use network.Core.Failures.{Result}
use network.Fsm.Evidence.{
  Item, Ctx, GuardOutcome, returned, evidence_of, has_kinds, join, pass_with, deny, deny_missing,
  pass_if_any, pass_if_all, text_or, is_text,
}
use network.Fsm.Runtime.{Transition, GuardedFsm, build, edge}

abbrev pub fsm_label : String
fsm_label = "FSM-5_RECOVERY"

abbrev pub scope : String
scope = "SERVICE_REACHABILITY"

abbrev pub not_needed : String
not_needed = "NOT_NEEDED"

abbrev pub escalating_l0 : String
escalating_l0 = "ESCALATING_L0"

abbrev pub escalating_l1 : String
escalating_l1 = "ESCALATING_L1"

abbrev pub escalating_l2 : String
escalating_l2 = "ESCALATING_L2"

abbrev pub escalating_l3 : String
escalating_l3 = "ESCALATING_L3"

abbrev pub escalating_l4 : String
escalating_l4 = "ESCALATING_L4"

abbrev pub escalating_l5 : String
escalating_l5 = "ESCALATING_L5"

abbrev pub escalating_l6 : String
escalating_l6 = "ESCALATING_L6"

abbrev pub escalating_l7 : String
escalating_l7 = "ESCALATING_L7"

abbrev pub recovered : String
recovered = "RECOVERED"

abbrev pub human_required : String
human_required = "HUMAN_REQUIRED"

abbrev pub lost : String
lost = "LOST"

abbrev pub all_states : List String
all_states =
    not_needed ∷ escalating_l0 ∷ escalating_l1 ∷ escalating_l2 ∷ escalating_l3 ∷ escalating_l4
    ∷ escalating_l5 ∷ escalating_l6 ∷ escalating_l7 ∷ recovered ∷ human_required ∷ lost ∷ []

abbrev pub g_5_1_escalating_l0_kinds : List String
g_5_1_escalating_l0_kinds = "failure:classified_recoverable" ∷ "change:bound" ∷ []

unfoldable pub g_5_1_escalating_l0 : Ctx → GuardOutcome
g_5_1_escalating_l0 ctx = pass_if_all ctx scope g_5_1_escalating_l0_kinds " (5.1)"

-- A level's digit, as the f-strings print it.
abbrev pub digit : ℕ → String
digit n =
    if n == 0
    then "0"
    else if n == 1
    then "1"
    else if n == 2
    then "2"
    else if n == 3
    then "3"
    else if n == 4
    then "4"
    else if n == 5
    then "5"
    else if n == 6
    then "6"
    else "7"

-- The three kinds that let level `level_from` be left, in the order of the loop.
abbrev pub kinds_5_2 : ℕ → List String
kinds_5_2 level_from =
    ("attempt:L" +++ digit level_from +++ "_failed")
    ∷ ("matrix:L" +++ digit level_from +++ "_not_supported")
    ∷ ("matrix:L" +++ digit level_from +++ "_not_configured")
    ∷ []

-- `for kind in kinds: if ids: return pass_with(*ids)`
unfoldable pub first_evidence : Ctx → List String → List String
first_evidence ctx [] = []
first_evidence ctx (k ∷ ks) = or_else (evidence_of ctx scope k) (first_evidence ctx ks)

unfoldable pub g_5_2_step : ℕ → Ctx → GuardOutcome
g_5_2_step level_from ctx =
    pass_if_any (first_evidence ctx (kinds_5_2 level_from))
      (join " | " (kinds_5_2 level_from) +++ " (5.2 for L" +++ digit level_from +++ ")")

abbrev pub g_5_3_recovered_kinds : List String
g_5_3_recovered_kinds =
    "device:reachable_again" ∷ "identity:reconfirmed" ∷ "state:reclassified" ∷ []

unfoldable pub g_5_3_recovered : Ctx → GuardOutcome
g_5_3_recovered ctx = pass_if_all ctx scope g_5_3_recovered_kinds " (5.3)"

unfoldable pub g_5_4_into_l5 : Ctx → GuardOutcome
unfolding pass_with deny
g_5_4_into_l5 ctx =
    let base = g_5_2_step 4 ctx in
    let gate = evidence_of ctx scope "gate:DESTRUCTIVE_human_decision" in
    if not base.accepted
    then base
    else if is_empty gate
    then deny "gate:DESTRUCTIVE_human_decision required to enter L5 (5.4, L06)"
    else pass_with (base.evidence_ids ++ gate)

unfoldable pub g_5_5_human_required : Ctx → GuardOutcome
g_5_5_human_required ctx =
    pass_if_any (evidence_of ctx scope "human_task:instructions_emitted")
      "human_task:instructions_emitted (5.5)"

unfoldable pub g_5_6_lost : Ctx → GuardOutcome
g_5_6_lost ctx =
    pass_if_any (evidence_of ctx scope "paths:all_exhausted") "paths:all_exhausted (5.6)"

abbrev pub levels : List String
levels =
    escalating_l0 ∷ escalating_l1 ∷ escalating_l2 ∷ escalating_l3 ∷ escalating_l4 ∷ escalating_l5
    ∷ escalating_l6 ∷ escalating_l7 ∷ []

-- the first loop of `_build_transitions`: `range(len(_LEVELS) - 1)`, from `index`
ladder : ℕ → List String → List Transition
ladder index [] = []
ladder index (a ∷ []) = []
ladder index (a ∷ b ∷ rest) =
    edge a b "5.2" (if index == 4 then g_5_4_into_l5 else g_5_2_step index)
    ∷ ladder (suc index) (b ∷ rest)

each_level : String → String → (Ctx → GuardOutcome) → List String → List Transition
each_level to id g [] = []
each_level to id g (l ∷ ls) = edge l to id g ∷ each_level to id g ls

unfoldable pub build_transitions : List Transition
unfolding ladder each_level
build_transitions =
    (edge not_needed escalating_l0 "5.1" g_5_1_escalating_l0 ∷ ladder 0 levels)
    ++ (each_level recovered "5.3" g_5_3_recovered levels
        ++ ((edge human_required recovered "5.3" g_5_3_recovered
              ∷ edge escalating_l6 human_required "5.5" g_5_5_human_required
              ∷ edge escalating_l7 human_required "5.5" g_5_5_human_required
              ∷ [])
            ++ each_level lost "5.6" g_5_6_lost levels))

unfoldable pub recovery_transitions : List Transition
unfolding build_transitions
recovery_transitions = build_transitions

unfoldable pub build_recovery_fsm : Result GuardedFsm
unfolding recovery_transitions
build_recovery_fsm = build fsm_label not_needed recovery_transitions
