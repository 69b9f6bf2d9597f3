-- ===== src/Fsm/Runtime/Trace.antt =====
-- fsm/runtime.py, rule 1: the recorded transitions are a faithful history of the machine.
use network.Prelude.{
  ◌≡◌, refl, sym, ap, ◌∙◌, ◌≢◌, inl, inr, List, [], ◌∷◌, ◌++◌, append-nil, append_assoc, Memᴰ,
  subst, Option-cases, String, is_empty, if◌then◌else◌,
}
use network.Prelude.Dict.{lookup}
use network.Core.Failures.{ok}
use network.Core.Counters.{CounterCollector}
use network.Core.Counters.Laws.{Registered, Tripped}
use network.Ledger.Models.{StateTransition}
use network.Ledger.Recorder.{Recorder}
use network.Fsm.Runtime.{
  Transition, FsmAttemptResult, Machine, Request, judged, moved, record_of, fire, run,
}
use network.Fsm.Runtime.Effects.{Effect, Counted-Tripped, fire-Effect, find_transition-mem}

-- The record tells of an entry of the table.
pub record Tells (ts : List Transition) (tr : StateTransition) : Type 0 where
  pub entry : Transition
  pub listed : Memᴰ entry ts
  pub same_from : tr.from_state ≡ entry.from_state
  pub same_to : tr.to_state ≡ entry.to_state
  pub same_guard : tr.guard_id ≡ entry.guard_id
  pub evidenced : tr.evidence_ids ≢ []

-- The records lead from one state to another, each from where the last one went.
abbrev pub Chain : List Transition → String → List StateTransition → String → Type 0
Chain ts s [] u = u ≡ s
Chain ts s (tr ∷ trs) u = (tr.from_state ≡ s) × Tells ts tr × Chain ts tr.to_state trs u

ids_filled :
    (ids : List String) → (if is_empty ids then "guard:no-evidence-declared" ∷ [] else ids) ≢ []
ids_filled [] h = cc
ids_filled (x ∷ xs) h = cc

Chain-append :
    (ts : List Transition) (s t u : String) (xs ys : List StateTransition)
    → Chain ts s xs t
    → Chain ts t ys u
    → Chain ts s (xs ++ ys) u
Chain-append ts s t u [] ys e h = rw (← e) h
Chain-append ts s t u (x ∷ xs) ys (f, g, k) h = (f, g, Chain-append ts x.to_state t u xs ys k h)

module _ (rec : Recorder) where
  open rec use {Log, transitions}

  -- No call of the run raises an exception.
  abbrev pub Clean : Machine Log → List Request → Type 0
  Clean m [] = Unit
  Clean m (r ∷ rs) =
      ((x : FsmAttemptResult) × ((fire rec m r).0 ≡ ok x)) × Clean (fire rec m r).1 rs

  -- What a call that returns adds to the log.
  pub record Told (m m' : Machine Log) : Type 0 where
    pub added : List StateTransition
    pub logged : transitions m'.log ≡ transitions m.log ++ added
    pub chained : Chain m.fsm.table m.fsm.state added m'.fsm.state
    pub same_table : m'.fsm.table ≡ m.fsm.table

  fire-Told :
      (m : Machine Log) (r : Request) {x : FsmAttemptResult}
      → Effect rec m r (fire rec m r)
      → (fire rec m r).0 ≡ ok x
      → Told m (fire rec m r).1
  unfolding record_of
  fire-Told m r (Effect.no_entry x e p q i f l g) h = record {
    added = [];
    logged = rw (l, append-nil) refl;
    chained = ap (λ z. z.state) f;
    same_table = ap (λ z. z.table) f;
  }
  fire-Told m r (Effect.refused t e n p q) h = record {
    added = [];
    logged = rw (p, append-nil) refl;
    chained = rw p;
    same_table = rw p;
  }
  fire-Told m r (Effect.recorded t x e a p q f c l) h =
      let (mem, s, u) = find_transition-mem m.fsm.state r.target m.fsm.table e in
      record {
        added = record_of m.fsm r t (judged (t.guard r.ctx)) ∷ [];
        logged = l;
        chained = (
          refl,
          record {
            entry = t;
            listed = mem;
            same_from = sym s;
            same_to = sym u;
            same_guard = refl;
            evidenced = ids_filled (judged (t.guard r.ctx)).evidence_ids;
          },
          ap (λ z. z.state) f,
        );
        same_table = ap (λ z. z.table) f;
      }
  fire-Told m r (Effect.unrecorded t x e a p q) h = cc

  Tripped-Registered : (name : String) (c : CounterCollector) → Tripped name c → Registered name c
  Tripped-Registered name c t = elim (Option-cases (lookup name c.values)) [
    | inl e ↦ absurd (t (rw e))
    | inr found ↦ found
  ]

  fire-Registered :
      (m : Machine Log) (r : Request)
      → Effect rec m r (fire rec m r)
      → Registered "gate_bypass" m.counters
      → Registered "gate_bypass" (fire rec m r).1.counters
  unfolding moved
  fire-Registered m r (Effect.no_entry x e p q i f l g) c =
      Tripped-Registered "gate_bypass" _ (Counted-Tripped rec m r _ g)
  fire-Registered m r (Effect.refused t e n p q) c = rw p c
  fire-Registered m r (Effect.recorded t x e a p q f k l) c = rw k c
  fire-Registered m r (Effect.unrecorded t x e a p q) c = rw q c

  -- Over a run without exceptions, whatever its requests, the log grows by a chain of records that
  -- leads from the first state of the machine to its last, each for an entry of the table and
  -- with evidence ids.
  pub run-Told :
      (m : Machine Log) (rs : List Request)
      → Registered "gate_bypass" m.counters
      → Clean m rs
      → Told m (run rec m rs)
  unfolding run
  run-Told m [] c h = record {
    added = [];
    logged = rw append-nil;
    chained = refl;
    same_table = refl;
  }
  run-Told m (r ∷ rs) c h =
      let effect = fire-Effect rec m r c in
      let first = fire-Told m r effect h.0.1 in
      let rest = run-Told (fire rec m r).1 rs (fire-Registered m r effect c) h.1 in
      record {
        added = first.added ++ rest.added;
        logged =
            rw (rest.logged, first.logged)
              (append_assoc (transitions m.log) first.added rest.added);
        chained =
            Chain-append m.fsm.table m.fsm.state (fire rec m r).1.fsm.state _ first.added rest.added
              first.chained
              (subst
                (λ ts.
                  Chain ts (fire rec m r).1.fsm.state rest.added
                    (run rec (fire rec m r).1 rs).fsm.state)
                first.same_table rest.chained);
        same_table = rest.same_table ∙ first.same_table;
      }
