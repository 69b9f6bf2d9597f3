-- ===== src/Ledger/Recorder.antt =====
-- fsm/runtime.py, `TransitionRecorder`: what the FSM runtime is given to record transitions, and
-- ledger/store.py, `append_transition` and `transitions` of `LedgerStore`, which implement it.
use network.Prelude.{
  ◌≡◌, ◌≢◌, refl, eq_iff, Bool, ◌||◌, false, Option, none, some, List, [], ◌∷◌, ◌++◌, String,
  str_eq, arith, if◌then◌else◌,
}
use network.Ledger.Models.{StateTransition}

-- `append_transition` answers `none` where it raises; what it records is found again by
-- `transitions`, behind what was there.
pub record Recorder : Type 1 where
  pub Log : Type 0
  pub transitions : Log → List StateTransition
  pub append_transition : StateTransition → Log → Option Log
  pub append_law :
      (tr : StateTransition) (l l' : Log)
      → append_transition tr l ≡ some l'
      → transitions l' ≡ transitions l ++ (tr ∷ [])

-- `transition_id TEXT PRIMARY KEY`
pub has_id : String → List StateTransition → Bool
has_id i [] = false
has_id i (tr ∷ rows) = str_eq tr.transition_id i || has_id i rows

-- The rows of the table `transitions`, by rowid. The insert raises where the key is taken.
unfoldable pub append_row : StateTransition → List StateTransition → Option (List StateTransition)
unfolding has_id
append_row tr rows = if has_id tr.transition_id rows then none else some (rows ++ (tr ∷ []))

pub append_row-eq :
    (tr : StateTransition) (l l' : List StateTransition)
    → append_row tr l ≡ some l'
    → l' ≡ l ++ (tr ∷ [])
unfolding append_row
append_row-eq tr l l' h = ground arith

pub has_id-nil : (i : String) → has_id i [] ≡ false
unfolding has_id
has_id-nil i = refl

-- A row under another id is no row under this one.
pub has_id-append :
    (i : String) (rows : List StateTransition) (tr : StateTransition)
    → has_id i rows ≡ false
    → tr.transition_id ≢ i
    → has_id i (rows ++ (tr ∷ [])) ≡ false
unfolding has_id
has_id-append i [] tr h other = ground (arith, other, eq_iff tr.transition_id i)
has_id-append i (x ∷ rows) tr h other =
    let rest = has_id-append i rows tr (ground arith) other in ground (arith, rest)

pub append_row-fresh :
    (tr : StateTransition) (l : List StateTransition)
    → has_id tr.transition_id l ≡ false
    → (l' : List StateTransition) × (append_row tr l ≡ some l')
unfolding append_row
append_row-fresh tr l h = (l ++ (tr ∷ []), rw h refl)

-- The ledger store is such a recorder.
abbrev pub ledger_store : Recorder
ledger_store = record {
  Log = List StateTransition;
  transitions = λ l. l;
  append_transition = append_row;
  append_law = append_row-eq;
}
