-- ===== src/Fsm/Runtime/Effects.antt =====
-- fsm/runtime.py: every effect that one call of `fire` can have.
use network.Prelude.{
  ◌≡◌, refl, sym, ap, ◌∙◌, true, false, none, some, List, [], ◌∷◌, ◌++◌, Memᴰ, String, eq_iff,
  arith, Option-cases, Bool-cases, inl, inr, and-left, and-right, is_filled,
}
use network.Core.Failures.{
  Failure, blocked_class, Error, ok, err, failure, validation_error, ledger_error, Result-cases,
}
use network.Prelude.Dict.{lookup, insert}
use network.Core.Counters.{CounterCollector}
use network.Core.Counters.Laws.{Registered, Tripped, increment_ok, increment-Tripped}
use network.Ledger.Models.{StateTransition, state_transition, is_valid}
use network.Ledger.Recorder.{Recorder}
use network.Fsm.Evidence.{Ctx, crashed}
use network.Fsm.Runtime.{
  Transition, FsmAttemptResult, Machine, Request, Fired, same_pair, find_transition, judged,
  illegal, denied, moved, record_of, commit, attempt, fire, illegal_reason,
}

-- What is found is an entry of the table, for the pair that was asked.
pub find_transition-mem :
    (s to : String) (ts : List Transition) {t : Transition}
    → find_transition s to ts ≡ some t
    → Memᴰ t ts × (t.from_state ≡ s) × (t.to_state ≡ to)
unfolding find_transition
find_transition-mem s to [] h = cc
find_transition-mem s to (x ∷ ts) {t} h = elim (Bool-cases (same_pair s to x)) [
  | inl e ↦
      let same : t ≡ x = ground arith in
      rw same (
        Memᴰ.head refl,
        (eq_iff x.from_state s).0 (and-left _ _ e),
        (eq_iff x.to_state to).0 (and-right _ _ e),
      )
  | inr e ↦
      let (m, f, g) = find_transition-mem s to ts {t = t} (ground arith) in (Memᴰ.tail m, f, g)
]

-- The guard of the entry accepts the context; a guard that raises does not.
abbrev pub Accepts : Transition → Ctx → Type 0
Accepts t c = (judged (t.guard c)).accepted ≡ true

abbrev pub Finds : {L : Type 0} → Machine L → Request → Transition → Type 0
Finds m r t = find_transition m.fsm.state r.target m.fsm.table ≡ some t

state_transition-eq :
    (tr : StateTransition) {tr' : StateTransition} → state_transition tr ≡ ok tr' → tr ≡ tr'
unfolding state_transition
state_transition-eq tr h = ground arith

module _ (rec : Recorder) (m : Machine (rec.Log)) (r : Request) where
  open rec use {Log, transitions, append_transition, append_law}

  -- `gate_bypass` has one reason more, that of this request, and no other counter is touched.
  abbrev pub Counted : CounterCollector → Type 0
  Counted after =
      (rs : List String) × (lookup "gate_bypass" m.counters.values ≡ some rs)
      × (after ≡ record {
        values = insert "gate_bypass" (rs ++ (illegal_reason m.fsm r ∷ [])) m.counters.values;
      })

  -- The four things that a call can do.
  pub data Effect (f : Fired Log) : Type 0 where
    no_entry :
        (x : FsmAttemptResult)
        → find_transition m.fsm.state r.target m.fsm.table ≡ none
        → f.0 ≡ ok x
        → x.success ≡ false
        → x.illegal ≡ true
        → f.1.fsm ≡ m.fsm
        → f.1.log ≡ m.log
        → Counted f.1.counters
        → Effect f
    refused :
        (t : Transition)
        → Finds m r t
        → ¬ Accepts t r.ctx
        → f.1 ≡ m
        → ((x : FsmAttemptResult) → f.0 ≡ ok x → (x.success ≡ false) × (x.illegal ≡ false))
        → Effect f
    recorded :
        (t : Transition) (x : FsmAttemptResult)
        → Finds m r t
        → Accepts t r.ctx
        → f.0 ≡ ok x
        → x.success ≡ true
        → f.1.fsm ≡ record (m.fsm) { state = r.target }
        → f.1.counters ≡ m.counters
        → transitions f.1.log
          ≡ transitions m.log ++ (record_of m.fsm r t (judged (t.guard r.ctx)) ∷ [])
        → Effect f
    unrecorded :
        (t : Transition) (e : Error)
        → Finds m r t
        → Accepts t r.ctx
        → f.0 ≡ err e
        → f.1 ≡ moved m r
        → Effect f

  illegal-Effect :
      Registered "gate_bypass" m.counters
      → find_transition m.fsm.state r.target m.fsm.table ≡ none
      → Effect (illegal m r)
  unfolding illegal failure
  illegal-Effect (rs, h) e =
      rw (increment_ok "gate_bypass" (illegal_reason m.fsm r) m.counters h, illegal)
        (Effect.no_entry _ e refl refl refl refl refl (rs, h, refl))

  -- What was counted is a trip.
  pub Counted-Tripped : (after : CounterCollector) → Counted after → Tripped "gate_bypass" after
  Counted-Tripped after (rs, h, same) =
      increment-Tripped "gate_bypass" (illegal_reason m.fsm r) m.counters
        (increment_ok "gate_bypass" (illegal_reason m.fsm r) m.counters h ∙ ap ok (sym same))

  denied-Effect :
      (t : Transition)
      → Finds m r t
      → ¬ Accepts t r.ctx
      → Effect (denied m t (judged (t.guard r.ctx)))
  unfolding denied
  denied-Effect t e n = Effect.refused t e n refl (λ x h. ground arith)

  commit-Effect :
      (t : Transition)
      → Finds m r t
      → Accepts t r.ctx
      → Effect (commit rec m r t (judged (t.guard r.ctx)))
  unfolding commit moved
  commit-Effect t e a =
      let tr = record_of m.fsm r t (judged (t.guard r.ctx)) in
      elim (Result-cases (state_transition tr)) [
        | inr (x, bad) ↦ rw (bad, commit) (Effect.unrecorded t x e a refl refl)
        | inl (tr', good) ↦ elim (Option-cases (append_transition tr' m.log)) [
          | inl lost ↦ rw (good, commit) (rw lost (Effect.unrecorded t ledger_error e a refl refl))
          | inr (l, kept) ↦
              rw (good, commit)
                (rw kept (
                  Effect.recorded t _ e a refl refl refl refl (
                    append_law tr' m.log l kept
                    ∙ ap (λ z. transitions m.log ++ (z ∷ [])) (sym (state_transition-eq tr good)))))
        ]
      ]

  pub fire-Effect : Registered "gate_bypass" m.counters → Effect (fire rec m r)
  unfolding fire attempt
  fire-Effect c = elim (Option-cases (find_transition m.fsm.state r.target m.fsm.table)) [
    | inl e ↦ rw (e, fire) (illegal-Effect c e)
    | inr (t, e) ↦ elim (Bool-cases (judged (t.guard r.ctx)).accepted) [
      | inl a ↦ rw (e, fire) (rw (a, attempt) (commit-Effect t e a))
      | inr d ↦ rw (e, fire) (rw (d, attempt) (denied-Effect t e (λ a. cc)))
    ]
  ]

is_valid-entity : (tr : StateTransition) → is_valid tr ≡ true → is_filled tr.entity_ref ≡ true
unfolding is_valid
is_valid-entity tr h = ground arith

module _ (rec : Recorder) (m : Machine (rec.Log)) (r : Request) (t : Transition) where
  open rec use {Log, append_transition}

  -- A guard that raises denies: the machine is as it was, and the attempt fails as BLOCKED with
  -- the guard's id, not as an illegal one.
  pub fire_fail_closed :
      {x : String}
      → Finds m r t
      → t.guard r.ctx ≡ crashed x
      → ((fire rec m r).1 ≡ m)
        × ((f : Failure) × ((fire rec m r).0
              ≡ ok (record {
                success = false;
                new_state = m.fsm.state;
                guard_id = t.guard_id;
                evidence_ids = [];
                failure = some f;
                illegal = false;
              }))
            × (f.cls ≡ blocked_class))
  unfolding fire attempt denied judged failure
  fire_fail_closed e c = rw (e, fire) (rw (c, attempt) (refl, (_, refl, refl)))

  -- With a record that is valid and a recorder that takes it, an accepted transition succeeds: the
  -- state moves, the log is the recorder's new one, and the result carries the guard's evidence ids.
  pub fire_success :
      {l : Log}
      → Finds m r t
      → Accepts t r.ctx
      → is_valid (record_of m.fsm r t (judged (t.guard r.ctx))) ≡ true
      → append_transition (record_of m.fsm r t (judged (t.guard r.ctx))) m.log ≡ some l
      → fire rec m r ≡ (
        ok (record {
          success = true;
          new_state = r.target;
          guard_id = t.guard_id;
          evidence_ids = (judged (t.guard r.ctx)).evidence_ids;
          failure = none;
          illegal = false;
        }),
        record (moved m r) { log = l },
      )
  unfolding fire attempt commit state_transition
  fire_success e a v k = rw (e, fire) (rw (a, attempt) (rw (v, commit) (rw (k, commit))))

  -- Where the entity has no name, an accepted transition moves the state, records nothing, and
  -- raises a validation error: the state is written before the record is made.
  pub fire_unrecorded :
      Finds m r t
      → Accepts t r.ctx
      → r.entity_ref ≡ ""
      → fire rec m r ≡ (err validation_error, moved m r)
  unfolding fire attempt commit state_transition
  fire_unrecorded e a n =
      let tr = record_of m.fsm r t (judged (t.guard r.ctx)) in
      elim (Bool-cases (is_valid tr)) [
        | inl v ↦ ground (arith, is_valid-entity tr v, eq_iff r.entity_ref "")
        | inr v ↦ rw (e, fire) (rw (a, attempt) (rw (v, commit)))
      ]
