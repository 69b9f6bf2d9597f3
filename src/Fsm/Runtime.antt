-- ===== src/Fsm/Runtime.antt =====
-- fsm/runtime.py: one FSM bound to a recorder and to the T5 counters.
pub mod Effects
pub mod Trace
pub mod Gates
pub mod Runs
use network.Prelude.{
  ℕ, ◌≡◌, Bool, true, false, ◌&&◌, ◌||◌, Option, none, some, List, [], ◌∷◌, ◌++◌, String, str_eq,
  is_empty, if◌then◌else◌, ◌+++◌,
}
use network.Prelude.Order.{sorted}
use network.Core.Failures.{
  FailureClass, Failure, blocked_class, Error, value_error, ledger_error, Result, ok, err, failure,
  failed, ◌>>=◌, ◌>>◌,
}
use network.Core.Counters.{CounterCollector, increment}
use network.Ledger.Models.{OperatorIdentity, StateTransition, state_transition}
use network.Ledger.Recorder.{Recorder}
use network.Fsm.Evidence.{Ctx, GuardOutcome, Guarded, returned, crashed, Guard, deny}

pub record Transition : Type 0 where
  pub from_state : String
  pub to_state : String
  pub guard_id : String
  pub guard : Guard

pub record FsmAttemptResult : Type 0 where
  pub success : Bool
  pub new_state : String
  pub guard_id : String
  pub evidence_ids : List String
  pub failure : Option Failure
  pub illegal : Bool

pub record GuardedFsm : Type 0 where
  pub fsm_label : String
  pub state : String
  pub table : List Transition

-- The FSM with the counters and the log that it writes to.
pub record Machine (L : Type 0) : Type 0 where
  pub fsm : GuardedFsm
  pub counters : CounterCollector
  pub log : L

-- The arguments of `fire`, with the id and the time that its record is given.
pub record Request : Type 0 where
  pub entity_ref : String
  pub target : String
  pub ctx : Ctx
  pub actor : OperatorIdentity
  pub transition_id : String
  pub collected_at : ℕ

-- `Transition(frm, to, guard_id, guard)` for a guard that raises no exception
abbrev pub edge : String → String → String → (Ctx → GuardOutcome) → Transition
edge frm to id g = record {
  from_state = frm;
  to_state = to;
  guard_id = id;
  guard = λ ctx. returned (g ctx);
}

abbrev pub same_pair : String → String → Transition → Bool
same_pair frm to t = str_eq t.from_state frm && str_eq t.to_state to

has_pair : String → String → List Transition → Bool
has_pair frm to [] = false
has_pair frm to (t ∷ ts) = same_pair frm to t || has_pair frm to ts

-- The set of pairs is as long as the list exactly if no pair comes twice.
unfoldable pub has_duplicates : List Transition → Bool
unfolding has_pair
has_duplicates [] = false
has_duplicates (t ∷ ts) = has_pair t.from_state t.to_state ts || has_duplicates ts

-- `GuardedFsm.__init__`
unfoldable pub build : String → String → List Transition → Result GuardedFsm
unfolding has_duplicates
build label initial ts =
    if has_duplicates ts
    then err (value_error "duplicate transition definitions (spec defect)")
    else ok (record { fsm_label = label; state = initial; table = ts })

-- `self._table.get((from, to))`
unfoldable pub find_transition : String → String → List Transition → Option Transition
find_transition frm to [] = none
find_transition frm to (t ∷ ts) = if same_pair frm to t then some t else find_transition frm to ts

targets : String → List Transition → List String
targets s [] = []
targets s (t ∷ ts) =
    let rest = targets s ts in if str_eq t.from_state s then t.to_state ∷ rest else rest

unfoldable pub allowed_targets : GuardedFsm → List String
unfolding targets
allowed_targets fsm = sorted (targets fsm.state fsm.table)

-- What a guard's call comes to: an exception denies.
unfoldable pub judged : Guarded → GuardOutcome
unfolding deny
judged (returned o) = o
judged (crashed x) = deny ("GUARD_EXCEPTION: " +++ x)

abbrev class_of : Option FailureClass → FailureClass
class_of none = blocked_class
class_of (some c) = c

abbrev ids_or_default : List String → List String
ids_or_default ids = if is_empty ids then "guard:no-evidence-declared" ∷ [] else ids

-- The result of a fire, and the machine that is left, also behind an exception.
abbrev pub Fired : Type 0 → Type 0
Fired L = Result FsmAttemptResult × Machine L

illegal_path : GuardedFsm → Request → String
illegal_path fsm r = fsm.state +++ "->" +++ r.target

pub illegal_reason : GuardedFsm → Request → String
unfolding illegal_path
illegal_reason fsm r =
    "ILLEGAL_TRANSITION "
    +++ fsm.fsm_label
    +++ " "
    +++ illegal_path fsm r
    +++ " entity="
    +++ r.entity_ref

illegal_cause : GuardedFsm → Request → String
unfolding illegal_path
illegal_cause fsm r = "ILLEGAL_TRANSITION: " +++ illegal_path fsm r +++ " has no table entry"

module _ {L : Type 0} where
  -- no table entry: audited and counted
  illegal : Machine L → Request → Fired L
  illegal m r = elim (increment "gate_bypass" (illegal_reason m.fsm r) m.counters) [
    | err e ↦ (err e, m)
    | ok counters ↦ (
      do
        f ← failure blocked_class (illegal_cause m.fsm r ∷ []) 0 0 [] none
        ok (record {
          success = false;
          new_state = m.fsm.state;
          guard_id = "";
          evidence_ids = [];
          failure = some f;
          illegal = true;
        }),
      record m { counters = counters },
    )
  ]

  denied : Machine L → Transition → GuardOutcome → Fired L
  denied m t o = (
    do
      f ←
          failure (class_of o.failure_class)
            (("GUARD_" +++ t.guard_id +++ "_DENIED: " +++ o.reason) ∷ []) 0 0 o.evidence_ids none
      ok (record {
        success = false;
        new_state = m.fsm.state;
        guard_id = t.guard_id;
        evidence_ids = o.evidence_ids;
        failure = some f;
        illegal = false;
      }),
    m,
  )

  unfoldable pub moved : Machine L → Request → Machine L
  moved m r = record m { fsm = record (m.fsm) { state = r.target } }

unfoldable pub record_of : GuardedFsm → Request → Transition → GuardOutcome → StateTransition
record_of fsm r t o = record {
  transition_id = r.transition_id;
  fsm = fsm.fsm_label;
  entity_ref = r.entity_ref;
  from_state = fsm.state;
  to_state = r.target;
  guard_id = t.guard_id;
  evidence_ids = ids_or_default o.evidence_ids;
  actor = r.actor;
  collected_at = r.collected_at;
}

module _ (rec : Recorder) where
  open rec use {Log, append_transition}

  -- The state is written first, the record is made and appended behind it.
  commit : Machine Log → Request → Transition → GuardOutcome → Fired Log
  unfolding moved record_of
  commit m r t o = elim (state_transition (record_of m.fsm r t o)) [
    | err e ↦ (err e, moved m r)
    | ok tr ↦ elim (append_transition tr m.log) [
      | none ↦ (err ledger_error, moved m r)
      | some log ↦ (
        ok (record {
          success = true;
          new_state = r.target;
          guard_id = t.guard_id;
          evidence_ids = o.evidence_ids;
          failure = none;
          illegal = false;
        }),
        record (moved m r) { log = log },
      )
    ]
  ]

  attempt : Machine Log → Request → Transition → Fired Log
  unfolding judged denied commit
  attempt m r t =
      let o = judged (t.guard r.ctx) in if o.accepted then commit m r t o else denied m t o

  unfoldable pub fire : Machine Log → Request → Fired Log
  unfolding illegal attempt illegal_reason illegal_cause
  fire m r = elim (find_transition m.fsm.state r.target m.fsm.table) [
    | none ↦ illegal m r
    | some t ↦ attempt m r t
  ]

  -- A sequence of fires; a caller may go on after an exception.
  unfoldable pub run : Machine Log → List Request → Machine Log
  run m [] = m
  run m (r ∷ rs) = run (fire m r).1 rs
