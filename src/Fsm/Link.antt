-- ===== src/Fsm/Link.antt =====
-- fsm/link_fsm.py: FSM-4, link and physical evidence.
pub mod Safety
use network.Prelude.{
  Bool, true, false, not, ◌&&◌, ◌||◌, Option, none, some, List, [], ◌∷◌, ◌++◌, String, str_eq,
  is_empty, if◌then◌else◌, contains, ◌+++◌, is_filled, or_else,
}
use network.Core.Failures.{Result}
use network.Fsm.Evidence.{
  Item, Ctx, GuardOutcome, returned, evidence_of, has_kinds, join, pass_with, deny, deny_missing,
  pass_if_any, pass_if_all, text_or, is_text,
}
use network.Fsm.Runtime.{Transition, GuardedFsm, build, edge}

abbrev pub fsm_label : String
fsm_label = "FSM-4_LINK"

abbrev pub scope_neighbor : String
scope_neighbor = "DIRECT_NEIGHBOR"

abbrev pub scope_path : String
scope_path = "PHYSICAL_PATH"

abbrev pub unknown : String
unknown = "UNKNOWN"

abbrev pub inferred : String
inferred = "INFERRED"

abbrev pub one_sided : String
one_sided = "ONE_SIDED"

abbrev pub conflicting : String
conflicting = "CONFLICTING"

abbrev pub intermediate_suspected : String
intermediate_suspected = "INTERMEDIATE_SUSPECTED"

abbrev pub direct_neighbor_probable : String
direct_neighbor_probable = "DIRECT_NEIGHBOR_PROBABLE"

abbrev pub direct_neighbor_confirmed : String
direct_neighbor_confirmed = "DIRECT_NEIGHBOR_CONFIRMED"

abbrev pub physical_path_verified : String
physical_path_verified = "PHYSICAL_PATH_VERIFIED"

abbrev pub stale : String
stale = "STALE"

abbrev pub all_states : List String
all_states =
    unknown ∷ inferred ∷ one_sided ∷ conflicting ∷ intermediate_suspected ∷ direct_neighbor_probable
    ∷ direct_neighbor_confirmed ∷ physical_path_verified ∷ stale ∷ []

unfoldable pub g_4_1_inferred : Ctx → GuardOutcome
g_4_1_inferred ctx =
    pass_if_any (evidence_of ctx scope_neighbor "passive:mac_arp_cooccurrence")
      "passive:mac_arp_cooccurrence (4.1)"

unfoldable pub g_4_2_one_sided : Ctx → GuardOutcome
g_4_2_one_sided ctx =
    pass_if_any (evidence_of ctx scope_neighbor "passive:neighbor_advertisement_one_side")
      "passive:neighbor_advertisement_one_side (4.2)"

unfoldable pub g_4_3_conflicting : Ctx → GuardOutcome
g_4_3_conflicting ctx =
    pass_if_any (evidence_of ctx scope_neighbor "passive:sources_disagree")
      "passive:sources_disagree (4.3)"

unfoldable pub g_4_4_intermediate_suspected : Ctx → GuardOutcome
g_4_4_intermediate_suspected ctx =
    pass_if_any (evidence_of ctx scope_neighbor "passive:intermediary_hints")
      "passive:intermediary_hints (4.4)"

abbrev pub probable_kinds : List String
probable_kinds =
    "passive:one_sided_plus_clean_mac" ∷ "passive:port_name_correlation"
    ∷ "passive:time_correlation" ∷ []

unfoldable pub g_4_5_probable : Ctx → GuardOutcome
unfolding pass_with deny_missing has_kinds
g_4_5_probable ctx =
    let bidir = evidence_of ctx scope_neighbor "passive:bidirectional_match" in
    let (found, missing) = has_kinds ctx scope_neighbor probable_kinds in
    if not (is_empty bidir)
    then pass_with bidir
    else if is_empty missing
    then pass_with found
    else deny_missing
        "bidirectional_match OR (one_sided_plus_clean_mac + port_name_correlation + time_correlation) (4.5)"

unfoldable pub g_4_6_confirmed : Ctx → GuardOutcome
g_4_6_confirmed ctx =
    pass_if_any (evidence_of ctx scope_neighbor "passive:absence_of_intermediary_proven")
      "passive:absence_of_intermediary_proven (4.6)"

unfoldable pub g_4_7_path_verified : Ctx → GuardOutcome
g_4_7_path_verified ctx =
    let active = evidence_of ctx scope_path "active:gated_proof" in
    let human = evidence_of ctx scope_path "human:explicit_confirmation" in
    pass_if_any (or_else active human) "active:gated_proof | human:explicit_confirmation (4.7)"

unfoldable pub g_4_8_stale : Ctx → GuardOutcome
g_4_8_stale ctx =
    pass_if_any (evidence_of ctx scope_neighbor "freshness:holdtime_exceeded")
      "freshness:holdtime_exceeded (4.8)"

unfoldable pub g_4_9_reevaluate : Ctx → GuardOutcome
g_4_9_reevaluate ctx =
    pass_if_any (evidence_of ctx scope_neighbor "reassessment:initiated")
      "reassessment:initiated (4.9)"

unfoldable pub link_transitions : List Transition
link_transitions =
    edge unknown inferred "4.1" g_4_1_inferred
    ∷ edge unknown one_sided "4.2" g_4_2_one_sided
    ∷ edge unknown conflicting "4.3" g_4_3_conflicting
    ∷ edge unknown intermediate_suspected "4.4" g_4_4_intermediate_suspected
    ∷ edge inferred direct_neighbor_probable "4.5" g_4_5_probable
    ∷ edge one_sided direct_neighbor_probable "4.5" g_4_5_probable
    ∷ edge direct_neighbor_probable direct_neighbor_confirmed "4.6" g_4_6_confirmed
    ∷ edge direct_neighbor_confirmed physical_path_verified "4.7" g_4_7_path_verified
    ∷ edge direct_neighbor_probable physical_path_verified "4.7" g_4_7_path_verified
    ∷ edge inferred stale "4.8" g_4_8_stale
    ∷ edge one_sided stale "4.8" g_4_8_stale
    ∷ edge direct_neighbor_probable stale "4.8" g_4_8_stale
    ∷ edge direct_neighbor_confirmed stale "4.8" g_4_8_stale
    ∷ edge physical_path_verified stale "4.8" g_4_8_stale
    ∷ edge stale unknown "4.9" g_4_9_reevaluate
    ∷ []

unfoldable pub build_link_fsm : Result GuardedFsm
unfolding link_transitions
build_link_fsm = build fsm_label unknown link_transitions
