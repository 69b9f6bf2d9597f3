-- ===== src/Engines/Rollback/Configure.antt =====
-- engines/rollback_engine.py: a `configure` whose conditions hold makes the rollback READY.
use network.Prelude.{◌≡◌, refl, true, [], ◌∷◌, String, arith, eq_refl, is_filled}
use network.Ledger.Recorder.{Recorder}
use network.Fsm.Evidence.Laws.{pass_if_any-accepted, pass_if_all-accepted}
use network.Fsm.Runtime.{find_transition, edge, judged}
use network.Fsm.Rollback.{
  fsm_label, scope, init, not_configured, not_ready, ready, rollback_transitions,
  ready_preconditions, g_3_2_not_configured, g_3_3_not_ready, g_3_4_ready,
}
use network.Engines.Capability.{CapabilityEngine}
use network.Engines.Driver.{Environment, Engine}
use network.Engines.Driver.Laws.{Takes, Placed, Driven}
use network.Engines.Driver.Items.{then-Driven, drive_new_takes}
use network.Engines.Rollback.{
  RollbackArtifact, RollbackPlan, rollback_actor, hash_ok, unmet, fire_new, configure_with,
  configure_on, configure,
}
use network.Engines.Rollback.Laws.{Configurable, label_known}

module _ (rec : Recorder) (env : Environment) (takes : Takes rec env) where
  fires_not_configured :
      (e : Engine (rec.Log)) (entity : String)
      → Placed rec env fsm_label rollback_transitions init e
      → is_filled entity ≡ true
      → Driven rec env fsm_label rollback_transitions not_configured tt e
          (fire_new rec env not_configured ("matrix:mechanism_supported" ∷ []) entity e)
  unfolding fire_new find_transition rollback_transitions g_3_2_not_configured judged
  fires_not_configured e entity here named =
      drive_new_takes rec env takes fsm_label rollback_transitions label_known e rollback_actor
        scope ("matrix:mechanism_supported" ∷ []) entity init not_configured
        (edge init not_configured "3.2" g_3_2_not_configured) here refl
        (λ c h.
          (pass_if_any-accepted c scope "matrix:mechanism_supported"
              "matrix:mechanism_supported (3.2)").1
            h.0)
        refl refl refl named

  fires_not_ready :
      (e : Engine (rec.Log)) (entity : String)
      → Placed rec env fsm_label rollback_transitions not_configured e
      → is_filled entity ≡ true
      → Driven rec env fsm_label rollback_transitions not_ready tt e
          (fire_new rec env not_ready ("artifact:exists" ∷ []) entity e)
  unfolding fire_new find_transition rollback_transitions g_3_3_not_ready judged
  fires_not_ready e entity here named =
      drive_new_takes rec env takes fsm_label rollback_transitions label_known e rollback_actor
        scope ("artifact:exists" ∷ []) entity not_configured not_ready
        (edge not_configured not_ready "3.3" g_3_3_not_ready) here refl
        (λ c h. (pass_if_any-accepted c scope "artifact:exists" "artifact:exists (3.3)").1 h.0) refl
        refl refl named

  fires_ready :
      (e : Engine (rec.Log)) (entity : String)
      → Placed rec env fsm_label rollback_transitions not_ready e
      → is_filled entity ≡ true
      → Driven rec env fsm_label rollback_transitions ready tt e
          (fire_new rec env ready ready_preconditions entity e)
  unfolding fire_new find_transition rollback_transitions g_3_4_ready judged
  fires_ready e entity here named =
      drive_new_takes rec env takes fsm_label rollback_transitions label_known e rollback_actor
        scope ready_preconditions entity not_ready ready (edge not_ready ready "3.4" g_3_4_ready)
        here refl (λ c h. (pass_if_all-accepted c scope ready_preconditions " (3.4)").1 h) refl refl
        refl named

  module _ (capability : CapabilityEngine) (sha256_hex : String → String) where
    unmet-nil :
        (plan : RollbackPlan) (a : RollbackArtifact)
        → Configurable capability sha256_hex plan a
        → unmet sha256_hex a ≡ []
    unfolding unmet
    unmet-nil plan a c = rw (c.unchanged, c.filesystem, c.management, c.reversible, c.recovery) refl

    content-filled :
        (a : RollbackArtifact) → hash_ok sha256_hex a ≡ true → is_filled a.content ≡ true
    unfolding hash_ok
    content-filled a h = ground arith

    -- With a recorder that takes every valid record under a new id, and with ids that neither
    -- repeat nor stand in its log, `configure` takes a rollback of a named platform from INIT to
    -- READY wherever the plan is feasible, the artifact is of its mechanism, the matrix supports
    -- that, and the artifact meets the five preconditions; no counter moves.
    pub configure_takes :
        (plan : RollbackPlan) (a : RollbackArtifact) (e : Engine (rec.Log))
        → Configurable capability sha256_hex plan a
        → is_filled plan.platform ≡ true
        → Placed rec env fsm_label rollback_transitions init e
        → Driven rec env fsm_label rollback_transitions ready tt e
            (configure rec env capability sha256_hex plan a e)
    unfolding configure configure_on configure_with
    configure_takes plan a e c named here =
        rw (c.planned, c.feasible, eq_refl a.mechanism, c.in_matrix)
          (then-Driven rec env fsm_label rollback_transitions not_configured ready e _ _
            (fires_not_configured e plan.platform here named)
            (λ e1 at1. rw (content-filled a c.unchanged) (
              then-Driven rec env fsm_label rollback_transitions not_ready ready e1 _ _
                (fires_not_ready e1 plan.platform at1 named)
                (λ e2 at2. rw (unmet-nil plan a c) (fires_ready e2 plan.platform at2 named)))))
