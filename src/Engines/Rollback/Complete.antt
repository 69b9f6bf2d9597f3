-- ===== src/Engines/Rollback/Complete.antt =====
-- engines/rollback_engine.py: how a rollback that was triggered ends.
use network.Prelude.{
  ◌≡◌, refl, inl, inr, Bool, true, ◌&&◌, [], ◌∷◌, String, is_filled, if◌then◌else◌, Bool-cases,
}
use network.Ledger.Recorder.{Recorder}
use network.Fsm.Evidence.Laws.{pass_if_any-accepted, pass_if_all-accepted}
use network.Fsm.Runtime.{find_transition, edge, judged}
use network.Fsm.Rollback.{
  fsm_label, scope, rollback_triggered, rollback_succeeded, rollback_failed, rollback_transitions,
  g_3_8_succeeded, g_3_8_succeeded_kinds, g_3_9_failed,
}
use network.Engines.Driver.{Environment, Engine}
use network.Engines.Driver.Laws.{Takes, Placed, Driven}
use network.Engines.Driver.Items.{drive_new_takes}
use network.Engines.Rollback.{rollback_actor, fire_new, complete}
use network.Engines.Rollback.Laws.{label_known}

-- `complete` with the three conjuncts.
abbrev pub outcome : Bool → Bool → Bool → String
outcome reapplied post_verify_pass mgmt_reachable =
    if reapplied && post_verify_pass && mgmt_reachable then rollback_succeeded else rollback_failed

module _ (rec : Recorder) (env : Environment) (takes : Takes rec env) where
  succeeds :
      (e : Engine (rec.Log)) (entity : String)
      → Placed rec env fsm_label rollback_transitions rollback_triggered e
      → is_filled entity ≡ true
      → Driven rec env fsm_label rollback_transitions rollback_succeeded tt e (
          fire_new rec env rollback_succeeded
            ("rollback:reapplied" ∷ "rollback:post_verify_pass" ∷ "mgmt_path:reachable" ∷ [])
            entity
            e)
  unfolding fire_new find_transition rollback_transitions g_3_8_succeeded judged
  succeeds e entity here named =
      drive_new_takes rec env takes fsm_label rollback_transitions label_known e rollback_actor
        scope g_3_8_succeeded_kinds entity rollback_triggered rollback_succeeded
        (edge rollback_triggered rollback_succeeded "3.8" g_3_8_succeeded) here refl
        (λ c h. (pass_if_all-accepted c scope g_3_8_succeeded_kinds " (3.8)").1 h) refl refl refl
        named

  fails :
      (e : Engine (rec.Log)) (entity : String)
      → Placed rec env fsm_label rollback_transitions rollback_triggered e
      → is_filled entity ≡ true
      → Driven rec env fsm_label rollback_transitions rollback_failed tt e
          (fire_new rec env rollback_failed ("rollback:succeed_conjunct_failed" ∷ []) entity e)
  unfolding fire_new find_transition rollback_transitions g_3_9_failed judged
  fails e entity here named =
      drive_new_takes rec env takes fsm_label rollback_transitions label_known e rollback_actor
        scope ("rollback:succeed_conjunct_failed" ∷ []) entity rollback_triggered rollback_failed
        (edge rollback_triggered rollback_failed "3.9" g_3_9_failed) here refl
        (λ c h.
          (pass_if_any-accepted c scope "rollback:succeed_conjunct_failed"
              "rollback:succeed_conjunct_failed (3.9)").1
            h.0)
        refl refl refl named

  -- With a recorder that takes every valid record under a new id, and with ids that neither
  -- repeat nor stand in its log, `complete` of a named change always returns from
  -- ROLLBACK_TRIGGERED: in ROLLBACK_SUCCEEDED if the configuration was reapplied, the
  -- verification passed and the management path is reachable, and else in ROLLBACK_FAILED; no
  -- counter moves.
  pub complete_takes :
      (change_id : String) (reapplied post_verify_pass mgmt_reachable : Bool) (e : Engine (rec.Log))
      → Placed rec env fsm_label rollback_transitions rollback_triggered e
      → is_filled change_id ≡ true
      → Driven rec env fsm_label rollback_transitions
          (outcome reapplied post_verify_pass mgmt_reachable)
          tt
          e
          (complete rec env change_id reapplied post_verify_pass mgmt_reachable e)
  unfolding complete
  complete_takes change_id r p m e here named = elim (Bool-cases (r && p && m)) [
    | inl y ↦ rw y (succeeds e change_id here named)
    | inr n ↦ rw n (fails e change_id here named)
  ]
