-- ===== src/Fsm/Runtime/Gates.antt =====
-- fsm/runtime.py: what holds of every sequence of fires, from what holds of each table entry.
use network.Prelude.{
  ◌≡◌, refl, inl, inr, Bool, true, false, not, ◌&&◌, if◌then◌else◌, List, [], ◌∷◌, Memᴰ, String,
  arith, Option-cases, Bool-cases, All, All-mem,
}
use network.Core.Failures.{Result-cases}
use network.Core.Counters.{increment}
use network.Ledger.Models.{state_transition}
use network.Ledger.Recorder.{Recorder}
use network.Fsm.Evidence.{Ctx}
use network.Fsm.Runtime.{
  Transition, Machine, Request, find_transition, judged, illegal, denied, moved, record_of, commit,
  attempt, fire, run, illegal_reason,
}
use network.Fsm.Runtime.Effects.{Accepts, find_transition-mem}

-- One step of the state: it stays, or an entry of the table was taken whose guard accepts.
pub data Moves (ts : List Transition) (c : Ctx) (s to u : String) : Type 0 where
  stays : u ≡ s → Moves ts c s to u
  takes :
      (t : Transition)
      → Memᴰ t ts
      → t.from_state ≡ s
      → t.to_state ≡ u
      → u ≡ to
      → Accepts t c
      → Moves ts c s to u

-- A set of states that no entry of the table leaves.
abbrev pub Closed : (String → Bool) → Transition → Type 0
Closed p t = p t.from_state ≡ true → p t.to_state ≡ true

-- Whatever enters the set by the entry has a context that meets `Q`.
abbrev pub Enters : (String → Bool) → (Ctx → Type 0) → Transition → Type 0
Enters past Q t = past t.from_state ≡ false → past t.to_state ≡ true → (c : Ctx) → Accepts t c → Q c

-- The entries that lead from outside of a set of states into it; those that lead out of it.
unfoldable pub entering : (String → Bool) → List Transition → List Transition
entering past [] = []
entering past (t ∷ ts) =
    let rest = entering past ts in
    if past t.to_state && not (past t.from_state) then t ∷ rest else rest

abbrev pub Demands : (Ctx → Type 0) → Transition → Type 0
Demands Q t = (c : Ctx) → Accepts t c → Q c

entering-Enters :
    (past : String → Bool) (Q : Ctx → Type 0) (ts : List Transition)
    → All (Demands Q) (entering past ts)
    → All (Enters past Q) ts
unfolding entering
entering-Enters past Q [] h = tt
entering-Enters past Q (t ∷ ts) h = elim (Bool-cases (past t.to_state && not (past t.from_state))) [
  | inl e ↦ let h' = rw (e, entering) at h in (λ f g. h'.0, entering-Enters past Q ts h'.1)
  | inr e ↦
      let h' = rw (e, entering) at h in (λ f g. absurd (ground arith), entering-Enters past Q ts h')
]

entering-Closed :
    (p : String → Bool) (ts : List Transition)
    → entering (λ s. not (p s)) ts ≡ []
    → All (Closed p) ts
unfolding entering
entering-Closed p [] h = tt
entering-Closed p (t ∷ ts) h = (λ f. ground arith, entering-Closed p ts (ground arith))

module _ (rec : Recorder) where
  open rec use {Log, append_transition}

  illegal-fsm : (m : Machine Log) (r : Request) → (illegal m r).1.fsm ≡ m.fsm
  unfolding illegal
  illegal-fsm m r =
      elim (Result-cases (increment "gate_bypass" (illegal_reason m.fsm r) m.counters)) [
        | inl (c, e) ↦ rw (e, illegal)
        | inr (x, e) ↦ rw (e, illegal)
      ]

  commit-fsm :
      (m : Machine Log) (r : Request) (t : Transition)
      → (commit rec m r t (judged (t.guard r.ctx))).1.fsm ≡ record (m.fsm) { state = r.target }
  unfolding commit moved
  commit-fsm m r t =
      let tr = record_of m.fsm r t (judged (t.guard r.ctx)) in
      elim (Result-cases (state_transition tr)) [
        | inr (x, bad) ↦ rw (bad, commit)
        | inl (tr', good) ↦ elim (Option-cases (append_transition tr' m.log)) [
          | inl lost ↦ rw (good, commit) (rw lost)
          | inr (l, kept) ↦ rw (good, commit) (rw kept)
        ]
      ]

  pub fire-Moves :
      (m : Machine Log) (r : Request)
      → Moves m.fsm.table r.ctx m.fsm.state r.target (fire rec m r).1.fsm.state
        × ((fire rec m r).1.fsm.table ≡ m.fsm.table)
  unfolding fire attempt denied
  fire-Moves m r = elim (Option-cases (find_transition m.fsm.state r.target m.fsm.table)) [
    | inl e ↦ rw (e, fire) (rw (illegal-fsm m r) (Moves.stays refl, refl))
    | inr (t, e) ↦
        let (mem, f, g) = find_transition-mem m.fsm.state r.target m.fsm.table e in
        elim (Bool-cases (judged (t.guard r.ctx)).accepted) [
          | inl a ↦
              rw (e, fire)
                (rw (a, attempt) (rw (commit-fsm m r t) (Moves.takes t mem f g refl a, refl)))
          | inr d ↦ rw (e, fire) (rw (d, attempt) (Moves.stays refl, refl))
        ]
  ]

  Moves-Closed :
      (p : String → Bool) {ts : List Transition} {c : Ctx} {s to u : String}
      → Moves ts c s to u
      → All (Closed p) ts
      → p s ≡ true
      → p u ≡ true
  Moves-Closed p (Moves.stays e) h i = rw e i
  Moves-Closed p {ts} (Moves.takes t mem f g k a) h i =
      rw (← g) (All-mem (Closed p) ts h mem (rw f i))

  -- A run does not leave a set of states that no entry of the table leaves.
  pub run-Closed :
      (p : String → Bool) (m : Machine Log) (rs : List Request)
      → entering (λ s. not (p s)) m.fsm.table ≡ []
      → p m.fsm.state ≡ true
      → p (run rec m rs).fsm.state ≡ true
  unfolding run
  run-Closed p m [] h i = i
  run-Closed p m (r ∷ rs) h i =
      let (mv, same) = fire-Moves m r in
      run-Closed p (fire rec m r).1 rs (rw same h)
        (Moves-Closed p mv (entering-Closed p m.fsm.table h) i)

  Moves-Enters :
      (past : String → Bool) (Q : Ctx → Type 0) {ts : List Transition} {c : Ctx} {s to u : String}
      → Moves ts c s to u
      → All (Enters past Q) ts
      → past s ≡ false
      → past u ≡ true
      → Q c
  Moves-Enters past Q (Moves.stays e) h i j = absurd (cc)
  Moves-Enters past Q {ts} {c} (Moves.takes t mem f g k a) h i j =
      All-mem (Enters past Q) ts h mem (rw f i) (rw g j) c a

  -- A run that starts outside of a set of states and ends in it has a request whose context meets
  -- `Q`, if every entry of the table into the set demands `Q`.
  pub run_gate :
      (past : String → Bool) (Q : Ctx → Type 0) (m : Machine Log) (rs : List Request)
      → All (Demands Q) (entering past m.fsm.table)
      → past m.fsm.state ≡ false
      → past (run rec m rs).fsm.state ≡ true
      → (r : Request) × Memᴰ r rs × Q r.ctx
  unfolding run
  run_gate past Q m [] h i j = absurd (cc)
  run_gate past Q m (r ∷ rs) h i j =
      let (mv, same) = fire-Moves m r in
      elim (Bool-cases (past (fire rec m r).1.fsm.state)) [
        | inl e ↦
            (r, Memᴰ.head refl, Moves-Enters past Q mv (entering-Enters past Q m.fsm.table h) i e)
        | inr e ↦
            let (r', mem, q) = run_gate past Q (fire rec m r).1 rs (rw same h) e j in
            (r', Memᴰ.tail mem, q)
      ]
