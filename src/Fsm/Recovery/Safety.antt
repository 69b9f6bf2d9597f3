-- ===== src/Fsm/Recovery/Safety.antt =====
-- fsm/recovery_fsm.py: what the recovery ladder can reach, and what it takes.
use network.Prelude.{
  ◌≡◌, refl, inl, inr, true, List, [], ◌∷◌, String, arith, contains, is_empty, Bool-cases,
}
use network.Ledger.Recorder.{Recorder}
use network.Fsm.Evidence.{Ctx, evidence_of}
use network.Fsm.Evidence.Laws.{Evidenced, AllEvidenced, Evidenced-of_filled, pass_if_all-accepted}
use network.Fsm.Runtime.{Machine, Request, judged, run}
use network.Fsm.Runtime.Gates.{entering}
use network.Fsm.Runtime.Runs.{Asked, In, NotIn, Stays, gate, stays_at}
use network.Fsm.Recovery.{
  scope, recovery_transitions, g_5_3_recovered, g_5_4_into_l5, escalating_l5, escalating_l6,
  escalating_l7, human_required, recovered, lost,
}

-- What a device that was recovered is to show.
abbrev pub recovered_demands : List String
recovered_demands = "device:reachable_again" ∷ "identity:reconfirmed" ∷ "state:reclassified" ∷ []

-- The destructive tier and what is reached through it alone.
abbrev pub destructive_states : List String
destructive_states = escalating_l5 ∷ escalating_l6 ∷ escalating_l7 ∷ human_required ∷ []

abbrev pub recovered_only : List String
recovered_only = recovered ∷ []

abbrev pub HumanDecided : Ctx → Type 0
HumanDecided = Evidenced scope "gate:DESTRUCTIVE_human_decision"

g_5_4-accepted : (ctx : Ctx) → (g_5_4_into_l5 ctx).accepted ≡ true → HumanDecided ctx
unfolding g_5_4_into_l5
g_5_4-accepted ctx h =
    elim (Bool-cases (is_empty (evidence_of ctx scope "gate:DESTRUCTIVE_human_decision"))) [
      | inr e ↦ Evidenced-of_filled ctx scope "gate:DESTRUCTIVE_human_decision" e
      | inl e ↦ absurd (ground arith)
    ]

module _ (rec : Recorder) (m : Machine (rec.Log)) (rs : List Request)
    (table : m.fsm.table ≡ recovery_transitions) where
  -- A recovery that was below the destructive tier, and after any requests is at L5, L6 or L7 or
  -- waits for a human, was asked with evidence of a human decision on the DESTRUCTIVE gate.
  pub destructive_needs_human :
      NotIn destructive_states m → In destructive_states (run rec m rs) → Asked HumanDecided rs
  unfolding recovery_transitions contains entering judged
  destructive_needs_human =
      gate rec recovery_transitions m rs table destructive_states HumanDecided (g_5_4-accepted, tt)

  -- A recovery that was not RECOVERED and after any requests is had evidence that the device is
  -- reachable, that its identity was confirmed again and that its state was classified again.
  pub recovered_needs_evidence :
      NotIn recovered_only m
      → In recovered_only (run rec m rs)
      → Asked (AllEvidenced scope recovered_demands) rs
  unfolding recovery_transitions contains entering g_5_3_recovered judged
  recovered_needs_evidence =
      let one = λ (c : Ctx). (pass_if_all-accepted c scope recovered_demands " (5.3)").0 in
      gate rec recovery_transitions m rs table recovered_only (AllEvidenced scope recovered_demands)
        (one, (one, (one, (one, (one, (one, (one, (one, (one, tt)))))))))

  -- RECOVERED and LOST are final.
  pub recovered-Stays : Stays rec m rs recovered × Stays rec m rs lost
  unfolding recovery_transitions contains entering
  recovered-Stays = (
    stays_at rec recovery_transitions m rs table recovered refl,
    stays_at rec recovery_transitions m rs table lost refl,
  )
