-- ===== src/Fsm/Device/Safety.antt =====
-- fsm/device_fsm.py: what a device can reach, and what it takes.
use network.Prelude.{
  ◌≡◌, refl, true, false, List, [], ◌∷◌, Memᴰ, String, arith, eq_iff, contains, some, ◌≢◌,
}
use network.Ledger.Recorder.{Recorder}
use network.Fsm.Evidence.{Ctx, Item}
use network.Fsm.Evidence.Laws.{Evidenced, Evidenced-of_filled}
use network.Fsm.Runtime.{Machine, Request, judged, run}
use network.Fsm.Runtime.Gates.{entering}
use network.Fsm.Runtime.Runs.{Asked, In, NotIn, Stays, gate, stays_at}
use network.Fsm.Device.{
  device_transitions, g_1_7_modeled, g_1_8_managed, has_kind, bootstrapped, modeled, managed,
  unsupported, stale,
}

abbrev pub modeled_states : List String
modeled_states = modeled ∷ managed ∷ stale ∷ []

abbrev pub managed_states : List String
managed_states = managed ∷ stale ∷ []

-- The twin accepted its claims, the gaps are listed, and no item flags a hallucinated entity.
abbrev pub Modeled : Ctx → Type 0
Modeled ctx =
    Evidenced "CONFIGURATION" "twin_claims_accepted" ctx
    × Evidenced "CONFIGURATION" "gaps_list_emitted" ctx
    × ((i : Item) → Memᴰ i ctx.evidence → i.kind ≢ some "entity_hallucination_flag")

abbrev pub Managed : Ctx → Type 0
Managed ctx =
    Evidenced "SERVICE_REACHABILITY" "monitoring_collectors_bound" ctx
    × Evidenced "CONFIGURATION" "reconciliation_baseline_stored" ctx
    × Evidenced "SERVICE_REACHABILITY" "recovery_path_not_lost" ctx

no_kind :
    (kind : String) (is : List Item) (i : Item)
    → has_kind kind is ≡ false
    → Memᴰ i is
    → i.kind ≢ some kind
unfolding has_kind
no_kind kind [] i h m e = elim m [ ]
no_kind kind (x ∷ is) i h (Memᴰ.head p) e =
    let k : x.kind ≡ some kind = rw (← p) e in ground (arith, eq_iff kind kind)
no_kind kind (x ∷ is) i h (Memᴰ.tail m) e = no_kind kind is i (ground arith) m e

g_1_7-accepted : (ctx : Ctx) → (g_1_7_modeled ctx).accepted ≡ true → Modeled ctx
unfolding g_1_7_modeled
g_1_7-accepted ctx h = (
  Evidenced-of_filled ctx "CONFIGURATION" "twin_claims_accepted" (ground arith),
  Evidenced-of_filled ctx "CONFIGURATION" "gaps_list_emitted" (ground arith),
  λ i. no_kind "entity_hallucination_flag" ctx.evidence i (ground arith),
)

g_1_8-accepted : (ctx : Ctx) → (g_1_8_managed ctx).accepted ≡ true → Managed ctx
unfolding g_1_8_managed
g_1_8-accepted ctx h = (
  Evidenced-of_filled ctx "SERVICE_REACHABILITY" "monitoring_collectors_bound" (ground arith),
  Evidenced-of_filled ctx "CONFIGURATION" "reconciliation_baseline_stored" (ground arith),
  Evidenced-of_filled ctx "SERVICE_REACHABILITY" "recovery_path_not_lost" (ground arith),
)

module _ (rec : Recorder) (m : Machine (rec.Log)) (rs : List Request)
    (table : m.fsm.table ≡ device_transitions) where
  -- A device that was not modelled, and after any requests is MODELED, MANAGED or STALE, was
  -- asked with evidence that the twin accepted its claims and that the gaps are listed, and with no
  -- item that flags a hallucinated entity.
  pub Modeled-needs_twin :
      NotIn modeled_states m → In modeled_states (run rec m rs) → Asked Modeled rs
  unfolding device_transitions contains entering judged
  Modeled-needs_twin =
      gate rec device_transitions m rs table modeled_states Modeled (g_1_7-accepted, tt)

  -- A device that was not managed, and after any requests is MANAGED or STALE, had its collectors
  -- bound, its baseline stored and a recovery path that is not lost.
  pub Managed-needs_monitoring :
      NotIn managed_states m → In managed_states (run rec m rs) → Asked Managed rs
  unfolding device_transitions contains entering judged
  Managed-needs_monitoring =
      gate rec device_transitions m rs table managed_states Managed (g_1_8-accepted, tt)

  -- No requests take a device out of BOOTSTRAPPED or UNSUPPORTED: the table has no entry from them,
  -- so a device that was bootstrapped is never discovered, modelled or managed.
  pub bootstrapped-Stays : Stays rec m rs bootstrapped × Stays rec m rs unsupported
  unfolding device_transitions contains entering
  bootstrapped-Stays = (
    stays_at rec device_transitions m rs table bootstrapped refl,
    stays_at rec device_transitions m rs table unsupported refl,
  )
