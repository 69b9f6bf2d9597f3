-- ===== src/Engines/Driver.antt =====
-- How an engine drives its FSM: `new_id` of core/ids.py and the clock are the environment's, and a
-- failed attempt is raised (`_fire` of engines/rollback_engine.py and engines/recovery_engine.py,
-- `fire` in `prepare` of engines/change_engine.py).
pub mod Laws
pub mod Items
use network.Prelude.{
  ℕ, suc, Bool, true, false, Option, none, some, List, [], ◌∷◌, String, if◌then◌else◌, ◌≢◌,
  is_filled,
}
use network.Core.Failures.{Error, failed, value_error, Result, ok, err, raise_blocked}
use network.Ledger.Models.{OperatorIdentity}
use network.Ledger.Recorder.{Recorder}
use network.Fsm.Evidence.{Item, Ctx, ev}
use network.Fsm.Runtime.{Machine, Request, FsmAttemptResult, fire}

-- The n-th identifier and the n-th reading of the clock. A UUID is not empty.
pub record Environment : Type 0 where
  pub new_id : ℕ → String
  pub clock : ℕ → ℕ
  pub filled : (n : ℕ) → new_id n ≢ ""

-- The machine that an engine drives, and how often it has called the environment.
pub record Engine (L : Type 0) : Type 0 where
  pub machine : Machine L
  pub calls : ℕ

-- A method of an engine: what it returns or raises, and the engine that it leaves.
abbrev pub Action : Type 0 → Type 0 → Type 0
Action L A = Engine L → Result A × Engine L

module _ {L : Type 0} where
  abbrev pub then_do : {A B : Type 0} → Result A × Engine L → (A → Action L B) → Result B × Engine L
  then_do (ok a, e) next = next a e
  then_do (err raised, e) next = (err raised, e)

  infixl 5 ◌>>=◌ ◌>>◌
  abbrev pub ◌>>=◌ : {A B : Type 0} → Action L A → (A → Action L B) → Action L B
  ◌>>=◌ first next e = then_do (first e) next

  abbrev pub ◌>>◌ : {A B : Type 0} → Action L A → Action L B → Action L B
  first >> second = first >>= λ done. second

  -- `if test: raise Failure(cls=FailureClass.BLOCKED, causes=(cause,))`
  abbrev pub blocked_if : Bool → String → Action L (Unit {0})
  blocked_if test cause e = (if test then raise_blocked cause else ok tt, e)

  abbrev pub raise : {A : Type 0} → String → Action L A
  raise cause e = (raise_blocked cause, e)

-- `if not result.success: raise result.failure`
unfoldable pub raised : Result FsmAttemptResult → Result (Unit {0})
raised (err x) = err x
raised (ok r) = if r.success then ok tt else elim r.failure [
  | none ↦ err (value_error "exceptions must derive from BaseException")
  | some f ↦ err (failed f)
]

module _ (env : Environment) {L : Type 0} where
  -- A list of items, each with a new id.
  unfoldable pub new_evs : String → List String → Action L (List Item)
  new_evs scope [] e = (ok [], e)
  new_evs scope (kind ∷ kinds) e =
      then_do (new_evs scope kinds (record e { calls = suc e.calls }))
        (λ items after. (ok (ev scope kind (env.new_id e.calls) ∷ items), after))

  -- Items with a given id each, and a new one where it is empty: `evidence_id or new_id()`.
  unfoldable pub evs_or : String → List (String × String) → Action L (List Item)
  evs_or scope [] e = (ok [], e)
  evs_or scope ((kind, given) ∷ others) e =
      if is_filled given
      then then_do (evs_or scope others e)
          (λ items after. (ok (ev scope kind given ∷ items), after))
      else then_do (evs_or scope others (record e { calls = suc e.calls }))
          (λ items after. (ok (ev scope kind (env.new_id e.calls) ∷ items), after))

abbrev pub kinds_of : List (String × String) → List String
kinds_of [] = []
kinds_of ((kind, given) ∷ others) = kind ∷ kinds_of others

abbrev pub only : List Item → Ctx
only items = record { evidence = items; gate_class = "" }

module _ (rec : Recorder) (env : Environment) where
  abbrev pub request_of : Engine (rec.Log) → OperatorIdentity → String → String → Ctx → Request
  request_of e actor entity target ctx = record {
    entity_ref = entity;
    target = target;
    ctx = ctx;
    actor = actor;
    transition_id = env.new_id e.calls;
    collected_at = env.clock e.calls;
  }

  unfoldable pub drive : OperatorIdentity → String → String → Ctx → Action (rec.Log) (Unit {0})
  drive actor entity target ctx e =
      let (r, m) = fire rec e.machine (request_of e actor entity target ctx) in
      (raised r, record { machine = m; calls = suc e.calls })
