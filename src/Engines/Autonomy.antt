-- ===== src/Engines/Autonomy.antt =====
-- engines/autonomy.py: E14, the autonomy authority.
pub mod Laws
use network.Prelude.{
  ℕ, Bool, true, false, not, ◌&&◌, Option, none, some, List, [], ◌∷◌, ◌++◌, String, ltb, is_filled,
  if◌then◌else◌, contains, ◌+++◌,
}
use network.Core.Failures.{Result, ok, err, raise_blocked, is_some}
use network.Fsm.Change.{human_only_gates, mfa_gates}

abbrev pub known_gate_classes : List String
known_gate_classes = "LOW_RISK" ∷ "HIGH_RISK" ∷ "IRREVERSIBLE" ∷ "DESTRUCTIVE" ∷ []

abbrev pub known_risk_classes : List String
known_risk_classes = known_gate_classes

pub data AutonomyLevel : Type 0 where
  m0_manual m1_assisted m2_supervised m3_controlled m4_high m5_full : AutonomyLevel

-- `order.index(level)`
abbrev pub level_index : AutonomyLevel → ℕ
level_index m0_manual = 0
level_index m1_assisted = 1
level_index m2_supervised = 2
level_index m3_controlled = 3
level_index m4_high = 4
level_index m5_full = 5

abbrev pub level_text : AutonomyLevel → String
level_text m0_manual = "M0_MANUAL"
level_text m1_assisted = "M1_ASSISTED"
level_text m2_supervised = "M2_SUPERVISED"
level_text m3_controlled = "M3_CONTROLLED"
level_text m4_high = "M4_HIGH"
level_text m5_full = "M5_FULL"

abbrev pub locked_ceiling : AutonomyLevel
locked_ceiling = m3_controlled

pub data Verdict : Type 0 where
  auto_execute approval_required human_only blocked : Verdict

pub record Approval : Type 0 where
  pub rbac_identity : String
  pub mfa_verified : Bool

-- `Approval.__post_init__`
unfoldable pub approval : String → Bool → Result Approval
approval identity mfa =
    if is_filled identity
    then ok (record { rbac_identity = identity; mfa_verified = mfa })
    else raise_blocked
        "APPROVAL_IDENTITY_EMPTY: human decisions without recorded identity are audit violations (D0-02 rule 5)"

-- A conjunct that is `none` is UNKNOWN.
pub record DecisionReadiness : Type 0 where
  pub intent_compiled : Option Bool
  pub fabric_pass : Option Bool
  pub dag_built : Option Bool
  pub blast_recorded : Option Bool
  pub rollback_ready : Option Bool
  pub twin_fresh : Option Bool
  pub capability_confirmed : Option Bool
  pub no_conflicting_change : Option Bool

-- `getattr(self, n) is True`
abbrev pub is_true : Option Bool → Bool
is_true none = false
is_true (some b) = b

-- `_CONJUNCTS` with the values of the attributes
abbrev pub conjuncts : DecisionReadiness → List (String × Option Bool)
conjuncts r =
    ("intent_compiled", r.intent_compiled)
    ∷ ("fabric_pass", r.fabric_pass)
    ∷ ("dag_built", r.dag_built)
    ∷ ("blast_recorded", r.blast_recorded)
    ∷ ("rollback_ready", r.rollback_ready)
    ∷ ("twin_fresh", r.twin_fresh)
    ∷ ("capability_confirmed", r.capability_confirmed)
    ∷ ("no_conflicting_change", r.no_conflicting_change)
    ∷ []

all_of : List (String × Option Bool) → Bool
all_of [] = true
all_of ((n, v) ∷ vs) = is_true v && all_of vs

names_if : (Option Bool → Bool) → List (String × Option Bool) → List String
names_if test [] = []
names_if test ((n, v) ∷ vs) = let rest = names_if test vs in if test v then n ∷ rest else rest

unfoldable pub all_true : DecisionReadiness → Bool
unfolding all_of
all_true r = all_of (conjuncts r)

unfoldable pub false_conjuncts : DecisionReadiness → List String
unfolding names_if
false_conjuncts r = names_if (λ v. not (is_true v)) (conjuncts r)

unfoldable pub unknown_conjuncts : DecisionReadiness → List String
unfolding names_if
unknown_conjuncts r = names_if (λ v. not (is_some v)) (conjuncts r)

pub record AutonomyDecision : Type 0 where
  pub verdict : Verdict
  pub gate_class : String
  pub risk_class : String
  pub level : AutonomyLevel
  pub human_decided : Bool
  pub approval_satisfied : Bool
  pub reasons : List String

pub record AutonomyAuthority : Type 0 where
  pub ceiling : AutonomyLevel

-- `AutonomyAuthority.__init__`
unfoldable pub authority : AutonomyLevel → Result AutonomyAuthority
authority ceiling =
    if ltb (level_index locked_ceiling) (level_index ceiling)
    then raise_blocked (
        "AUTONOMY_CEILING_LOCKED: v1 ceiling is "
        +++ level_text locked_ceiling
        +++ " (OI-0006); "
        +++ level_text ceiling
        +++ " refuses construction")
    else ok (record { ceiling = ceiling })

abbrev pub is_m3 : AutonomyLevel → Bool
is_m3 m3_controlled = true
is_m3 _ = false

-- `approval is not None and approval.mfa_verified`
abbrev pub mfa_approved : Option Approval → Bool
mfa_approved none = false
mfa_approved (some a) = a.mfa_verified

missing_reason : Option Approval → String
missing_reason none = "HUMAN_DECISION_MISSING"
missing_reason (some a) = "HUMAN_DECISION_MFA_UNVERIFIED"

-- `_decision`
abbrev pub decision :
    AutonomyAuthority → String → String → Verdict → Bool → Bool → List String → AutonomyDecision
decision self gate risk v human satisfied reasons = record {
  verdict = v;
  gate_class = gate;
  risk_class = risk;
  level = self.ceiling;
  human_decided = human;
  approval_satisfied = satisfied;
  reasons = reasons;
}

unfoldable pub decide :
    AutonomyAuthority → String → String → Bool → Option Approval → AutonomyDecision
unfolding missing_reason
decide self gate risk preflight_not_modeled given =
    let out = decision self gate risk in
    let human_decided = is_some given in
    let satisfied = mfa_approved given in
    if not (contains gate known_gate_classes)
    then out blocked false false (("GATE_CLASS_UNKNOWN:'" +++ gate +++ "'") ∷ [])
    else if not (contains risk known_risk_classes)
    then out blocked false false
        (("RISK_CLASS_UNKNOWN:'" +++ risk +++ "' (rule 4: UNKNOWN is terminal)") ∷ [])
    else if preflight_not_modeled
    then out blocked false false (
        "NOT_MODELED_TERMINAL: automation cannot proceed without a model (L13); approval cannot substitute for modeling"
        ∷ [])
    else if contains gate human_only_gates
    then out human_only satisfied satisfied (
        ("HUMAN_ONLY_GATE:" +++ gate +++ " in every mode (L06)")
        ∷ (if satisfied then [] else missing_reason given ∷ []))
    else if contains gate mfa_gates
    then out approval_required human_decided satisfied (
        ("MFA_GATE:" +++ gate +++ " requires RBAC identity + verified MFA (§18)")
        ∷ (if satisfied then [] else "APPROVAL_UNSATISFIED" ∷ []))
    else if is_m3 self.ceiling
    then out auto_execute false true ("M3_CONTROLLED: low-risk fully modeled work executes" ∷ [])
    else out approval_required human_decided human_decided (
        ("CEILING_BELOW_M3:"
          +++ level_text self.ceiling
          +++ ": low-risk work still requires approval")
        ∷ [])
