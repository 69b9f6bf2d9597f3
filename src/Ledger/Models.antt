-- ===== src/Ledger/Models.antt =====
-- ledger/models.py: operator identities and FSM transition records. A timestamp is a number that
-- is only carried along.
use network.Prelude.{
  ℕ, Bool, ◌&&◌, not, Option, List, [], ◌∷◌, String, if◌then◌else◌, is_filled, is_empty, contains,
}
use network.Core.Failures.{Result, ok, err, validation_error}

pub record OperatorIdentity : Type 0 where
  pub kind : String
  pub id : String
  pub rbac_role : Option String
  pub mfa_verified : Option Bool

pub record StateTransition : Type 0 where
  pub transition_id : String
  pub fsm : String
  pub entity_ref : String
  pub from_state : String
  pub to_state : String
  pub guard_id : String
  pub evidence_ids : List String
  pub actor : OperatorIdentity
  pub collected_at : ℕ

-- `allowed` of the validator `_fsm`
abbrev pub fsm_labels : List String
fsm_labels =
    "FSM-1_DEVICE" ∷ "FSM-2_CHANGE" ∷ "FSM-3_ROLLBACK" ∷ "FSM-4_LINK" ∷ "FSM-5_RECOVERY"
    ∷ "TWIN_PROJECTION" ∷ "AUTOPILOT" ∷ []

unfoldable pub is_valid : StateTransition → Bool
unfolding contains
is_valid tr =
    contains tr.fsm fsm_labels
    && is_filled tr.entity_ref
    && is_filled tr.from_state
    && is_filled tr.to_state
    && is_filled tr.guard_id
    && not (is_empty tr.evidence_ids)

-- The constructor of the model: it raises where a field's constraint fails.
unfoldable pub state_transition : StateTransition → Result StateTransition
unfolding is_valid
state_transition tr = if is_valid tr then ok tr else err validation_error
