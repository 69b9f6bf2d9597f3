-- ===== src/Fsm/Link/Safety.antt =====
-- fsm/link_fsm.py: what the evidence of a link can claim.
use network.Prelude.{
  ◌≡◌, refl, ◌⊎◌, inl, inr, true, List, [], ◌∷◌, String, arith, contains, is_empty, Bool-cases,
}
use network.Ledger.Recorder.{Recorder}
use network.Fsm.Evidence.{Ctx, evidence_of, pass_if_any}
use network.Fsm.Evidence.Laws.{Evidenced, has_kinds-nil, Evidenced-of_filled}
use network.Fsm.Runtime.{Machine, Request, judged, run}
use network.Fsm.Runtime.Gates.{entering}
use network.Fsm.Runtime.Runs.{Asked, In, NotIn, Stays, gate, stays_at}
use network.Fsm.Link.{
  scope_neighbor, scope_path, link_transitions, probable_kinds, g_4_5_probable, g_4_7_path_verified,
  conflicting, intermediate_suspected, direct_neighbor_probable, direct_neighbor_confirmed,
  physical_path_verified,
}

abbrev pub verified_only : List String
verified_only = physical_path_verified ∷ []

abbrev pub claimed_states : List String
claimed_states = direct_neighbor_probable ∷ direct_neighbor_confirmed ∷ physical_path_verified ∷ []

-- A gated active proof, or an explicit confirmation by a human.
abbrev pub Proved : Ctx → Type 0
Proved ctx =
    Evidenced scope_path "active:gated_proof" ctx
    ⊎ Evidenced scope_path "human:explicit_confirmation" ctx

-- Both sides agree, or one side does with three correlations.
abbrev pub Probable : Ctx → Type 0
Probable ctx =
    Evidenced scope_neighbor "passive:bidirectional_match" ctx
    ⊎ (Evidenced scope_neighbor "passive:one_sided_plus_clean_mac" ctx
        × Evidenced scope_neighbor "passive:port_name_correlation" ctx
        × Evidenced scope_neighbor "passive:time_correlation" ctx)

g_4_7-accepted : (ctx : Ctx) → (g_4_7_path_verified ctx).accepted ≡ true → Proved ctx
unfolding g_4_7_path_verified pass_if_any
g_4_7-accepted ctx h =
    elim (Bool-cases (is_empty (evidence_of ctx scope_path "active:gated_proof"))) [
      | inr e ↦ inl (Evidenced-of_filled ctx scope_path "active:gated_proof" e)
      | inl e ↦
          inr (Evidenced-of_filled ctx scope_path "human:explicit_confirmation" (ground arith))
    ]

g_4_5-accepted : (ctx : Ctx) → (g_4_5_probable ctx).accepted ≡ true → Probable ctx
unfolding g_4_5_probable
g_4_5-accepted ctx h =
    elim (Bool-cases (is_empty (evidence_of ctx scope_neighbor "passive:bidirectional_match"))) [
      | inr e ↦ inl (Evidenced-of_filled ctx scope_neighbor "passive:bidirectional_match" e)
      | inl e ↦
          let (mac, (port, (time, done))) =
            (has_kinds-nil ctx scope_neighbor probable_kinds).0 (ground arith) in
          inr (mac, port, time)
    ]

module _ (rec : Recorder) (m : Machine (rec.Log)) (rs : List Request)
    (table : m.fsm.table ≡ link_transitions) where
  -- A link that was not verified, and after any requests is PHYSICAL_PATH_VERIFIED, had a gated
  -- active proof or an explicit human confirmation: passive evidence never verifies a path.
  pub verified_needs_proof :
      NotIn verified_only m → In verified_only (run rec m rs) → Asked Proved rs
  unfolding link_transitions contains entering judged
  verified_needs_proof =
      gate rec link_transitions m rs table verified_only Proved
        (g_4_7-accepted, (g_4_7-accepted, tt))

  -- A link that claimed no direct neighbour, and after any requests claims one, had evidence from
  -- both sides, or from one side with a clean MAC, a port name and a time correlation.
  pub claimed_needs_correlation :
      NotIn claimed_states m → In claimed_states (run rec m rs) → Asked Probable rs
  unfolding link_transitions contains entering judged
  claimed_needs_correlation =
      gate rec link_transitions m rs table claimed_states Probable
        (g_4_5-accepted, (g_4_5-accepted, tt))

  -- Conflicting sources, and a suspected intermediary, are never resolved by the machine.
  pub conflicting-Stays : Stays rec m rs conflicting × Stays rec m rs intermediate_suspected
  unfolding link_transitions contains entering
  conflicting-Stays = (
    stays_at rec link_transitions m rs table conflicting refl,
    stays_at rec link_transitions m rs table intermediate_suspected refl,
  )
