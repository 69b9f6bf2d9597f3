-- ===== src/Engines/Rollback/Laws.antt =====
-- engines/rollback_engine.py: what a `configure` that returned has met, and that it cannot be repeated.
use network.Prelude.{
  ◌≡◌, refl, sym, ap, ◌∙◌, ◌≢◌, inl, inr, Bool, true, false, not, Option, none, some, List, [], ◌∷◌,
  ◌+++◌, String, arith, eq_iff, eq_refl, str_eq, is_filled, is_empty, contains, Bool-cases,
  Option-cases,
}
use network.Core.Failures.{Result, ok, err, raise_blocked}
use network.Core.Counters.Laws.{Registered}
use network.Ledger.Models.{fsm_labels}
use network.Ledger.Recorder.{Recorder}
use network.Fsm.Evidence.{join}
use network.Fsm.Runtime.{Transition, find_transition}
use network.Fsm.Rollback.{
  fsm_label, scope, init, not_configured, not_ready, ready, rollback_transitions,
  ready_preconditions,
}
use network.Engines.Capability.{
  CapabilityEngine, recovery_lookup, is_supported, is_not_supported, RecoveryStatus, supported,
  not_supported, unknown_status,
}
use network.Engines.Driver.{Environment, Engine, then_do, blocked_if, ◌>>◌}
use network.Engines.Driver.Laws.{Bypassed, then_do-ok}
use network.Engines.Driver.Items.{drive_new-ok, drive_new_bypass, then-Bypassed}
use network.Engines.Rollback.{
  RollbackArtifact, RollbackPlan, rollback_actor, hash_ok, unmet, fire_new, configure_with,
  configure_on, configure,
}

pub label_known : contains fsm_label fsm_labels ≡ true
unfolding contains
label_known = refl

-- What `configure` asks of a plan and its artifact.
pub record Configurable (capability : CapabilityEngine) (sha256_hex : String → String)
    (plan : RollbackPlan) (a : RollbackArtifact) : Type 0 where
  pub feasible : plan.feasible ≡ true
  pub planned : plan.mechanism ≡ some a.mechanism
  pub in_matrix : (recovery_lookup capability plan.platform a.mechanism).status ≡ supported
  pub unchanged : hash_ok sha256_hex a ≡ true
  pub filesystem : a.filesystem_prereqs_ok ≡ true
  pub management : a.preserves_management_path ≡ true
  pub reversible : a.all_commands_reversible ≡ true
  pub recovery : a.recovery_path_verified ≡ true

none_left : (xs : List String) → not (is_empty xs) ≡ false → xs ≡ []
none_left [] h = refl
none_left (x ∷ xs) h = absurd (ground arith)

-- NOT_CONFIGURED is entered from INIT alone.
from_init :
    (s : String)
    → ((t : Transition) × (find_transition s not_configured rollback_transitions ≡ some t))
    → s ≡ init
unfolding find_transition rollback_transitions
from_init s (t, h) = ground (arith, eq_iff init s)

elsewhere : (s : String) → s ≢ init → find_transition s not_configured rollback_transitions ≡ none
unfolding find_transition rollback_transitions
elsewhere s h = ground (arith, eq_iff init s)

pub is_supported-eq : (x : RecoveryStatus) → is_supported x ≡ true → x ≡ supported
is_supported-eq supported h = refl
is_supported-eq not_supported h = absurd (ground arith)
is_supported-eq unknown_status h = absurd (ground arith)

module _ (rec : Recorder) (env : Environment) (capability : CapabilityEngine)
    (sha256_hex : String → String) where
  unmet-parts :
      (a : RollbackArtifact)
      → unmet sha256_hex a ≡ []
      → (hash_ok sha256_hex a ≡ true)
        × (a.filesystem_prereqs_ok ≡ true)
        × (a.preserves_management_path ≡ true)
        × (a.all_commands_reversible ≡ true)
        × (a.recovery_path_verified ≡ true)
  unfolding unmet
  unmet-parts a h = ground arith

  blocked_if-ok :
      {L : Type 0} (test : Bool) (cause : String) (e after : Engine L) (u : Unit {0})
      → blocked_if test cause e ≡ (ok u, after)
      → (test ≡ false) × (after ≡ e)
  blocked_if-ok test cause e after u h = elim (Bool-cases test) [
    | inl y ↦ ground arith
    | inr n ↦ ground arith
  ]

  -- What a `configure` behind its checks has done, if it returns.
  configure_with-ok :
      (platform mechanism : String) (a : RollbackArtifact) (e after : Engine (rec.Log))
      → e.machine.fsm.table ≡ rollback_transitions
      → Registered "gate_bypass" e.machine.counters
      → configure_with rec env capability sha256_hex platform mechanism a e ≡ (ok tt, after)
      → (unmet sha256_hex a ≡ [])
        × (e.machine.fsm.state ≡ init)
        × (after.machine.fsm.state ≡ ready)
        × (after.machine.counters ≡ e.machine.counters)
  unfolding configure_with fire_new
  configure_with-ok platform mechanism a e after table c h =
      let problem = "ROLLBACK_PRECONDITIONS_UNMET:" +++ join ";" (unmet sha256_hex a) in
      let last_step = fire_new rec env ready ready_preconditions platform in
      let checked = blocked_if (not (is_empty (unmet sha256_hex a))) problem >> last_step in
      let listed = fire_new rec env not_ready ("artifact:exists" ∷ []) platform >> checked in
      let filled = blocked_if (not (is_filled a.content)) "ARTIFACT_EMPTY" >> listed in
      let (u1, e1, r1, h1) = then_do-ok _ (λ u. filled) h in
      let (t1, f1, k1) =
        drive_new-ok rec env e e1 rollback_actor scope ("matrix:mechanism_supported" ∷ []) platform
          not_configured c r1 in
      let (u2, e2, r2, h2) = then_do-ok _ (λ u. listed) h1 in
      let (y2, s2) = blocked_if-ok (not (is_filled a.content)) "ARTIFACT_EMPTY" e1 e2 u2 r2 in
      let (u3, e3, r3, h3) = then_do-ok _ (λ u. checked) h2 in
      let (t3, f3, k3) =
        drive_new-ok rec env e2 e3 rollback_actor scope ("artifact:exists" ∷ []) platform not_ready
          (rw (s2, k1) c) r3 in
      let (u4, e4, r4, h4) = then_do-ok _ (λ u. last_step) h3 in
      let (y4, s4) = blocked_if-ok (not (is_empty (unmet sha256_hex a))) problem e3 e4 u4 r4 in
      let (t5, f5, k5) =
        drive_new-ok rec env e4 after rollback_actor scope ready_preconditions platform ready
          (rw (s4, k3, s2, k1) c) h4 in
      (none_left _ y4, from_init _ (rw table at t1), rw f5 refl, rw (k5, s4, k3, s2, k1) refl)

  -- What follows a raise does not return.
  raises_after :
      {L : Type 0} (r : Result (Unit {0}) × Engine L) (cause : String) (after : Engine L)
      → then_do r (λ u e. (raise_blocked cause, e)) ≡ (ok tt, after)
      → ⊥
  raises_after (ok u, e) cause after h = ground arith
  raises_after (err x, e) cause after h = ground arith

  configure_on-ok :
      (plan : RollbackPlan) (mechanism : String) (a : RollbackArtifact) (e after : Engine (rec.Log))
      → configure_on rec env capability sha256_hex plan mechanism a e ≡ (ok tt, after)
      → (a.mechanism ≡ mechanism)
        × ((recovery_lookup capability plan.platform mechanism).status ≡ supported)
        × (configure_with rec env capability sha256_hex plan.platform mechanism a e
            ≡ (ok tt, after))
  unfolding configure_on
  configure_on-ok plan mechanism a e after h =
      let x = (recovery_lookup capability plan.platform mechanism).status in
      elim (Bool-cases (str_eq a.mechanism mechanism)) [
        | inr n ↦ ground arith
        | inl y ↦ elim (Bool-cases (is_not_supported x)) [
          | inl absent ↦ absurd (raises_after _ _ after (rw (y, absent) at h))
          | inr other ↦ elim (Bool-cases (is_supported x)) [
            | inl fine ↦ ((eq_iff _ _).0 y, is_supported-eq x fine, rw (y, other, fine) at h)
            | inr bad ↦ ground arith
          ]
        ]
      ]

  -- A `configure` that returns, on an FSM with the rollback table and counters that know the gate
  -- bypass, met all its conditions, started in INIT and ended in READY with the same counters.
  pub configure-ok :
      (plan : RollbackPlan) (a : RollbackArtifact) (e after : Engine (rec.Log))
      → e.machine.fsm.table ≡ rollback_transitions
      → Registered "gate_bypass" e.machine.counters
      → configure rec env capability sha256_hex plan a e ≡ (ok tt, after)
      → Configurable capability sha256_hex plan a
        × (e.machine.fsm.state ≡ init)
        × (after.machine.fsm.state ≡ ready)
        × (after.machine.counters ≡ e.machine.counters)
  unfolding configure configure_on
  configure-ok plan a e after table c h = elim (Option-cases plan.mechanism) [
    | inl absent ↦ ground (arith, absent)
    | inr (m, found) ↦ elim (Bool-cases plan.feasible) [
      | inr bad ↦ absurd (cc (rw (found, bad) at h))
      | inl fine ↦
          let (same, sup, with) = configure_on-ok plan m a e after (rw (found, fine) at h) in
          let (met, from, to, k) = configure_with-ok plan.platform m a e after table c with in
          let (p1, p2, p3, p4, p5) = unmet-parts a met in
          (
            record {
              feasible = fine;
              planned = found ∙ ap Option.some (sym same);
              in_matrix = rw same sup;
              unchanged = p1;
              filesystem = p2;
              management = p3;
              reversible = p4;
              recovery = p5;
            },
            from,
            to,
            k,
          )
    ]
  ]

  -- On the rollback table, with counters that know the gate bypass, a `configure` outside INIT of a
  -- plan and an artifact that meet all its conditions raises, leaves the state and counts a bypass.
  pub configure_again :
      (plan : RollbackPlan) (a : RollbackArtifact) (e : Engine (rec.Log))
      → Configurable capability sha256_hex plan a
      → e.machine.fsm.table ≡ rollback_transitions
      → Registered "gate_bypass" e.machine.counters
      → e.machine.fsm.state ≢ init
      → Bypassed e (configure rec env capability sha256_hex plan a e)
  unfolding configure configure_on configure_with fire_new
  configure_again plan a e x table c away =
      rw (x.planned, x.feasible, eq_refl a.mechanism, x.in_matrix)
        (then-Bypassed e _ _ (
          drive_new_bypass rec env e rollback_actor scope ("matrix:mechanism_supported" ∷ [])
            plan.platform not_configured c (rw table (elsewhere e.machine.fsm.state away))))
