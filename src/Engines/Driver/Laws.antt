-- ===== src/Engines/Driver/Laws.antt =====
-- Driving an FSM: what a call that returns has done, and when it returns.
use network.Prelude.{
  ℕ, suc, ◌≤◌, ◌≡◌, refl, sym, ◌∙◌, ap, false, inl, inr, true, false, none, some, List, String,
  arith, is_filled, contains, Option-cases,
}
use network.Core.Failures.{Result, ok, err, Error, value_error, failed}
use network.Core.Counters.Laws.{Registered, Tripped}
use network.Ledger.Models.{StateTransition, OperatorIdentity, is_valid, fsm_labels}
use network.Ledger.Recorder.{Recorder, ledger_store, has_id, has_id-append, append_row-fresh}
use network.Fsm.Evidence.{Ctx, GuardOutcome}
use network.Fsm.Runtime.{
  Transition, GuardedFsm, Request, FsmAttemptResult, find_transition, judged, record_of, moved,
  fire,
}
use network.Fsm.Runtime.Effects.{Accepts, Effect, Counted-Tripped, fire-Effect, fire_success}
use network.Engines.Driver.{Environment, Engine, Action, then_do, raised, request_of, drive}

-- The recorder takes every valid record under an id that is not in its log, and `new_id` never
-- returns an id twice.
pub record Takes (rec : Recorder) (env : Environment) : Type 0 where
  pub records :
      (tr : StateTransition) (l : rec.Log)
      → is_valid tr ≡ true
      → has_id tr.transition_id (rec.transitions l) ≡ false
      → (l' : rec.Log) × (rec.append_transition tr l ≡ some l')
  pub distinct : (m n : ℕ) → env.new_id m ≡ env.new_id n → m ≡ n

-- The ledger store is such a recorder.
pub ledger_store-Takes :
    (env : Environment) → ((m n : ℕ) → env.new_id m ≡ env.new_id n → m ≡ n) → Takes ledger_store env
ledger_store-Takes env distinct = record {
  records = λ tr l valid free. append_row-fresh tr l free;
  distinct = distinct;
}

-- The machine of an FSM with this label and table is in a state.
abbrev pub fsm_at : String → List Transition → String → GuardedFsm
fsm_at label table s = record { fsm_label = label; state = s; table = table }

abbrev pub At : {L : Type 0} → String → List Transition → String → Engine L → Type 0
At label table s e = e.machine.fsm ≡ fsm_at label table s

-- No id that the engine is still to make is in the log.
abbrev pub Free : (rec : Recorder) → Environment → Engine (rec.Log) → Type 0
Free rec env e =
    (n : ℕ) → e.calls ≤ n → has_id (env.new_id n) (rec.transitions e.machine.log) ≡ false

-- The machine is in a state, and the ids still to be made are not in the log.
abbrev pub Placed :
    (rec : Recorder) → Environment → String → List Transition → String → Engine (rec.Log) → Type 0
Placed rec env label table s e = At label table s e × Free rec env e

-- The call has returned, in another state, with the same counters and with ids still to be made.
abbrev pub Driven :
    {A : Type 0} (rec : Recorder)
    → Environment
    → String
    → List Transition
    → String
    → A
    → Engine (rec.Log)
    → Result A × Engine (rec.Log)
    → Type 0
Driven rec env label table target value e r =
    (after : Engine (rec.Log)) × (r ≡ (ok value, after))
    × Placed rec env label table target after
    × (after.machine.counters ≡ e.machine.counters)

-- Inversion of a step of a method that returns.
pub then_do-ok :
    {L A B : Type 0} (r : Result A × Engine L) (next : A → Action L B) {b : B} {last : Engine L}
    → then_do r next ≡ (ok b, last)
    → (a : A) × (after : Engine L) × (r ≡ (ok a, after)) × (next a after ≡ (ok b, last))
then_do-ok (ok a, e) next h = (a, e, refl, h)
then_do-ok (err x, e) next h = absurd (ground arith)

valid :
    (label : String) (table : List Transition) (s : String) (r : Request) (t : Transition)
    (o : GuardOutcome)
    → contains label fsm_labels ≡ true
    → is_filled s ≡ true
    → is_filled r.target ≡ true
    → is_filled t.guard_id ≡ true
    → is_filled r.entity_ref ≡ true
    → is_valid (record_of (fsm_at label table s) r t o) ≡ true
unfolding is_valid record_of
valid label table s r t o l f g k n = ground (arith, l, f, g, k, n)

module _ (rec : Recorder) (env : Environment) (takes : Takes rec env) (label : String)
    (table : List Transition) (known : contains label fsm_labels ≡ true) where
  -- The id of this call's record is used up, and no later one is.
  Free-next :
      (e : Engine (rec.Log)) (tr : StateTransition) (l : rec.Log) (n : ℕ)
      → Free rec env e
      → tr.transition_id ≡ env.new_id e.calls
      → rec.append_transition tr e.machine.log ≡ some l
      → suc e.calls ≤ n
      → has_id (env.new_id n) (rec.transitions l) ≡ false
  Free-next e tr l n free same kept h =
      let before : has_id (env.new_id n) (rec.transitions e.machine.log) ≡ false =
        free n (omega (arith, h)) in
      rw (rec.append_law tr e.machine.log l kept) (
        has_id-append (env.new_id n) (rec.transitions e.machine.log) tr before (λ z.
          let again : e.calls ≡ n = takes.distinct e.calls n (sym same ∙ z) in
          absurd (omega (arith, again, h))))

  -- An attempt of an entry whose guard accepts is recorded, for an entity with a name.
  pub drive_takes :
      (e : Engine (rec.Log)) (actor : OperatorIdentity) (entity s target : String) (ctx : Ctx)
      (t : Transition)
      → Placed rec env label table s e
      → find_transition s target table ≡ some t
      → Accepts t ctx
      → is_filled s ≡ true
      → is_filled target ≡ true
      → is_filled t.guard_id ≡ true
      → is_filled entity ≡ true
      → Driven rec env label table target tt e (drive rec env actor entity target ctx e)
  unfolding drive raised moved record_of
  drive_takes e actor entity s target ctx t (here, free) found a fs ft fg fe =
      let r = request_of rec env e actor entity target ctx in
      let tr = record_of e.machine.fsm r t (judged (t.guard ctx)) in
      let fine : is_valid tr ≡ true =
        rw here (valid label table s r t (judged (t.guard ctx)) known fs ft fg fe) in
      let (l, kept) = takes.records tr e.machine.log fine (free e.calls (omega arith)) in
      let done = fire_success rec e.machine r t (rw here found) a fine kept in
      (
        record { machine = record (moved e.machine r) { log = l }; calls = suc e.calls },
        rw done refl,
        (
          ap (λ (fsm : GuardedFsm). record fsm { state = target }) here,
          λ n h. Free-next e tr l n free refl kept h,
        ),
        refl,
      )

-- What a call of `drive` that returns has done: an entry was taken whose guard accepts.
pub record Took (table : List Transition) (s target : String) (ctx : Ctx) : Type 0 where
  pub entry : Transition
  pub found : find_transition s target table ≡ some entry
  pub accepted : Accepts entry ctx

success_of : (x : FsmAttemptResult) → raised (ok x) ≡ ok tt → x.success ≡ true
unfolding raised
success_of x h = elim (Option-cases x.failure) [
  | inl e ↦ ground (arith, e)
  | inr (f, e) ↦ ground (arith, e)
]

raised-ok :
    (r : Result FsmAttemptResult)
    → raised r ≡ ok tt
    → (x : FsmAttemptResult) × (r ≡ ok x) × (x.success ≡ true)
unfolding raised
raised-ok (err x) h = absurd (ground arith)
raised-ok (ok x) h = (x, refl, success_of x h)

module _ (rec : Recorder) (env : Environment) where
  drive-parts :
      (e after : Engine (rec.Log)) (actor : OperatorIdentity) (entity target : String) (ctx : Ctx)
      → drive rec env actor entity target ctx e ≡ (ok tt, after)
      → (raised (fire rec e.machine (request_of rec env e actor entity target ctx)).0 ≡ ok tt)
        × (after.machine ≡ (fire rec e.machine (request_of rec env e actor entity target ctx)).1)
  unfolding drive
  drive-parts e after actor entity target ctx h = (ap (λ p. p.0) h, ap (λ p. p.1.machine) (sym h))

  pub drive-ok :
      (e after : Engine (rec.Log)) (actor : OperatorIdentity) (entity target : String) (ctx : Ctx)
      → Registered "gate_bypass" e.machine.counters
      → drive rec env actor entity target ctx e ≡ (ok tt, after)
      → Took e.machine.fsm.table e.machine.fsm.state target ctx
        × (after.machine.fsm ≡ record (e.machine.fsm) { state = target })
        × (after.machine.counters ≡ e.machine.counters)
  drive-ok e after actor entity target ctx c h =
      let r = request_of rec env e actor entity target ctx in
      let (x, ret, success) = raised-ok _ (drive-parts e after actor entity target ctx h).0 in
      let left = (drive-parts e after actor entity target ctx h).1 in
      elim (fire-Effect rec e.machine r c) [
        | Effect.no_entry y n p q i f l g ↦ absurd (ground (arith, ret, p, success, q))
        | Effect.refused t n d p q ↦ absurd (ground (arith, (q x ret).0, success))
        | Effect.recorded t y n a p q f k l ↦
            (record { entry = t; found = n; accepted = a }, rw left f, rw left k)
        | Effect.unrecorded t y n a p q ↦ absurd (ground (arith, ret, p))
      ]

raised-err : (x : FsmAttemptResult) → x.success ≡ false → (y : Error) × (raised (ok x) ≡ err y)
unfolding raised
raised-err x h = elim (Option-cases x.failure) [
  | inl e ↦ (value_error "exceptions must derive from BaseException", ground (arith, e))
  | inr (f, e) ↦ (failed f, ground (arith, e))
]

-- The call has raised, counted a bypass, and left the state.
abbrev pub Bypassed : {L A : Type 0} → Engine L → Result A × Engine L → Type 0
Bypassed {L} e r =
    (y : Error) × (after : Engine L) × (r ≡ (err y, after))
    × (after.machine.fsm ≡ e.machine.fsm)
    × Tripped "gate_bypass" after.machine.counters

module _ (rec : Recorder) (env : Environment) where
  -- An attempt without a table entry is counted and raised.
  pub drive_bypass :
      (e : Engine (rec.Log)) (actor : OperatorIdentity) (entity target : String) (ctx : Ctx)
      → Registered "gate_bypass" e.machine.counters
      → find_transition e.machine.fsm.state target e.machine.fsm.table ≡ none
      → Bypassed e (drive rec env actor entity target ctx e)
  unfolding drive
  drive_bypass e actor entity target ctx c n =
      let r = request_of rec env e actor entity target ctx in
      elim (fire-Effect rec e.machine r c) [
        | Effect.no_entry x m p q i f l g ↦
            let (y, up) = raised-err x q in
            (
              y,
              record { machine = (fire rec e.machine r).1; calls = suc e.calls },
              rw (p, up) refl,
              f,
              Counted-Tripped rec e.machine r _ g,
            )
        | Effect.refused t m d p q ↦ absurd (ground (arith, n, m))
        | Effect.recorded t y m a p q f k l ↦ absurd (ground (arith, n, m))
        | Effect.unrecorded t y m a p q ↦ absurd (ground (arith, n, m))
      ]
