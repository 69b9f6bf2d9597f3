-- ===== src/Fsm/Runtime/Runs.antt =====
-- fsm/runtime.py: the laws on runs, for a machine with a known table.
use network.Prelude.{
  ◌≡◌, Bool, true, false, not, List, [], ◌∷◌, Memᴰ, String, arith, eq_iff, All, contains,
}
use network.Ledger.Recorder.{Recorder}
use network.Fsm.Evidence.{Ctx}
use network.Fsm.Runtime.{Transition, Machine, Request, run}
use network.Fsm.Runtime.Gates.{Demands, entering, run-Closed, run_gate}

abbrev pub in_states : List String → String → Bool
in_states states s = contains s states

-- One of the requests came with a context that meets `Q`.
abbrev pub Asked : (Ctx → Type 0) → List Request → Type 0
Asked Q rs = (r : Request) × Memᴰ r rs × Q r.ctx

abbrev pub In : {L : Type 0} → List String → Machine L → Type 0
In states m = in_states states m.fsm.state ≡ true

abbrev pub NotIn : {L : Type 0} → List String → Machine L → Type 0
NotIn states m = in_states states m.fsm.state ≡ false

module _ (rec : Recorder) (table : List Transition) (m : Machine (rec.Log)) (rs : List Request)
    (same : m.fsm.table ≡ table) where
  pub gate :
      (states : List String) (Q : Ctx → Type 0)
      → All (Demands Q) (entering (in_states states) table)
      → NotIn states m
      → In states (run rec m rs)
      → Asked Q rs
  gate states Q h = run_gate rec (in_states states) Q m rs (rw same h)

  pub keeps :
      (states : List String)
      → entering (λ s. not (in_states states s)) table ≡ []
      → In states m
      → In states (run rec m rs)
  keeps states h = run-Closed rec (in_states states) m rs (rw same h)

  pub stays_at :
      (s : String)
      → entering (λ u. not (in_states (s ∷ []) u)) table ≡ []
      → m.fsm.state ≡ s
      → (run rec m rs).fsm.state ≡ s
  unfolding contains
  stays_at s h e = ground (
    arith,
    keeps (s ∷ []) h (ground (arith, eq_iff m.fsm.state s)),
    eq_iff (run rec m rs).fsm.state s,
  )

-- No requests take the machine out of the state.
abbrev pub Stays : (rec : Recorder) → Machine (rec.Log) → List Request → String → Type 0
Stays rec m rs s = m.fsm.state ≡ s → (run rec m rs).fsm.state ≡ s
