-- ===== src/Engines/Rollback/Plan.antt =====
-- engines/rollback_engine.py: what `plan_from_ir` may plan, and that what it plans can be configured.
use network.Prelude.{
  ◌≡◌, refl, inl, inr, Bool, true, false, not, some, List, [], ◌∷◌, ◌++◌, String, arith, is_filled,
  is_empty, contains, if◌then◌else◌, Bool-cases, All, All-append,
}
use network.Prelude.Order.{sorted, sorted-nil}
use network.Ledger.Recorder.{Recorder}
use network.Fsm.Rollback.{fsm_label, init, ready, rollback_transitions}
use network.Engines.Capability.{
  CapabilityEngine, recovery_lookup, recovery_methods, is_supported, supported,
}
use network.Engines.ConfigIr.{IrNode, ConfigIr, is_irreversible}
use network.Engines.Driver.{Environment, Engine}
use network.Engines.Driver.Laws.{Takes, Placed, Driven}
use network.Engines.Rollback.{
  RollbackArtifact, destructive_mechanisms, plan_from_ir, candidates_of, primaries, by_preference,
  first_of, irreversible_ids, hash_ok, configure,
}
use network.Engines.Rollback.Laws.{is_supported-eq}
use network.Engines.Rollback.Configure.{configure_takes}

-- The four preconditions that an artifact states of itself.
pub record Fit (a : RollbackArtifact) : Type 0 where
  pub filesystem : a.filesystem_prereqs_ok ≡ true
  pub management : a.preserves_management_path ≡ true
  pub reversible : a.all_commands_reversible ≡ true
  pub recovery : a.recovery_path_verified ≡ true

-- The matrix supports the mechanism on the platform, and it is not one of last resort.
abbrev pub Usable : CapabilityEngine → String → String → Type 0
Usable c platform m =
    (contains m destructive_mechanisms ≡ false)
    × ((recovery_lookup c platform m).status ≡ supported)

candidates_of-Usable :
    (c : CapabilityEngine) (platform : String) (ms : List String)
    → All (Usable c platform) (candidates_of c platform ms)
unfolding candidates_of
candidates_of-Usable c platform [] = tt
candidates_of-Usable c platform (m ∷ ms) =
    let rest = candidates_of-Usable c platform ms in
    elim (Bool-cases (contains m destructive_mechanisms)) [
      | inl y ↦ rw y rest
      | inr n ↦ elim (Bool-cases (is_supported (recovery_lookup c platform m).status)) [
        | inl s ↦ rw (n, s) ((n, is_supported-eq _ s), rest)
        | inr u ↦ rw (n, u) rest
      ]
    ]

primaries-All {κ} :
    (marked : Bool) (c : CapabilityEngine) (platform : String) (P : String → Type κ)
    (ms : List String)
    → All P ms
    → All P (primaries marked c platform ms)
unfolding primaries
primaries-All marked c platform P [] h = tt
primaries-All marked c platform P (m ∷ ms) h =
    let rest = primaries-All marked c platform P ms h.1 in
    elim (Bool-cases (
      if marked
      then (recovery_lookup c platform m).primary
      else not (recovery_lookup c platform m).primary)) [
        | inl y ↦ rw y (h.0, rest)
        | inr n ↦ rw n rest
      ]

first_of-All {κ} :
    (P : String → Type κ) (xs : List String) {x : String} → All P xs → first_of xs ≡ some x → P x
first_of-All P [] h e = absurd (ground arith)
first_of-All P (x ∷ xs) {x = y} h e = let same : x ≡ y = ground arith in rw (← same) h.0

irreversible_ids-nil :
    (ns : List IrNode)
    → irreversible_ids ns ≡ []
    → All (λ (n : IrNode). is_irreversible n.reversibility ≡ false) ns
unfolding irreversible_ids
irreversible_ids-nil [] h = tt
irreversible_ids-nil (n ∷ ns) h = elim (Bool-cases (is_irreversible n.reversibility)) [
  | inl y ↦ ground (arith, y)
  | inr other ↦ (other, irreversible_ids-nil ns (rw other at h))
]

by_preference-Usable :
    (c : CapabilityEngine) (platform : String) (ms : List String)
    → All (Usable c platform) (by_preference c platform (candidates_of c platform ms))
unfolding by_preference
by_preference-Usable c platform ms =
    let fine = candidates_of-Usable c platform ms in
    All-append (Usable c platform) _ _ (primaries-All true c platform (Usable c platform) _ fine)
      (primaries-All false c platform (Usable c platform) _ fine)

-- Neither blocker is there.
no_blockers :
    (irreversible candidates : List String) (a b : String)
    → is_empty (
        (if is_empty irreversible then [] else a ∷ [])
        ++ (if is_empty candidates then b ∷ [] else []))
      ≡ true
    → (irreversible ≡ []) × ((m : String) × (first_of candidates ≡ some m))
no_blockers [] [] a b h = absurd (ground arith)
no_blockers [] (m ∷ ms) a b h = (refl, (m, refl))
no_blockers (x ∷ xs) ms a b h = absurd (ground arith)

module _ (c : CapabilityEngine) (ir : ConfigIr) (platform : String) where
  -- The mechanism of any plan is one that the matrix supports on the platform, and none of the
  -- destructive ones.
  pub plan-Usable :
      {m : String} → (plan_from_ir c ir platform).mechanism ≡ some m → Usable c platform m
  unfolding plan_from_ir
  plan-Usable h =
      first_of-All (Usable c platform) _
        (by_preference-Usable c platform (recovery_methods c platform)) h

  -- A feasible plan has a mechanism, and changes nothing that cannot be reversed.
  pub plan-feasible :
      (plan_from_ir c ir platform).feasible ≡ true
      → All (λ (n : IrNode). is_irreversible n.reversibility ≡ false) ir.nodes
        × ((m : String) × ((plan_from_ir c ir platform).mechanism ≡ some m) × Usable c platform m)
  unfolding plan_from_ir
  plan-feasible h =
      let (sound, (m, first)) =
        no_blockers (sorted (irreversible_ids ir.nodes))
          (by_preference c platform (candidates_of c platform (recovery_methods c platform))) _
          "NO_SUPPORTED_MECHANISM" h in
      (irreversible_ids-nil ir.nodes (sorted-nil _ sound), (m, first, plan-Usable first))

  -- A feasible plan for a named platform is carried out by `configure`: with a recorder that
  -- takes every valid record under a new id, and with ids that neither repeat nor stand in its
  -- log, an intact artifact of the planned mechanism that meets the preconditions takes the
  -- rollback from INIT to READY, and no counter moves.
  pub plan-configure :
      (rec : Recorder) (env : Environment) (sha256_hex : String → String) (a : RollbackArtifact)
      (e : Engine (rec.Log))
      → Takes rec env
      → (plan_from_ir c ir platform).feasible ≡ true
      → (plan_from_ir c ir platform).mechanism ≡ some a.mechanism
      → hash_ok sha256_hex a ≡ true
      → Fit a
      → is_filled platform ≡ true
      → Placed rec env fsm_label rollback_transitions init e
      → Driven rec env fsm_label rollback_transitions ready tt e
          (configure rec env c sha256_hex (plan_from_ir c ir platform) a e)
  unfolding plan_from_ir
  plan-configure rec env sha256_hex a e takes fine chosen intact fit named here =
      configure_takes rec env takes c sha256_hex (plan_from_ir c ir platform) a e
        (record {
          feasible = fine;
          planned = chosen;
          in_matrix = (plan-Usable chosen).1;
          unchanged = intact;
          filesystem = fit.filesystem;
          management = fit.management;
          reversible = fit.reversible;
          recovery = fit.recovery;
        })
        named here
