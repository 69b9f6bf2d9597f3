-- ===== src/Fsm/Rollback/Safety.antt =====
-- fsm/rollback_fsm.py: what a rollback can reach, and what it takes.
use network.Prelude.{◌≡◌, refl, List, [], ◌∷◌, String, All, contains}
use network.Ledger.Recorder.{Recorder}
use network.Fsm.Evidence.Laws.{Evidenced, AllEvidenced, pass_if_all-accepted, pass_if_any-accepted}
use network.Fsm.Runtime.{Machine, Request, judged, run}
use network.Fsm.Runtime.Gates.{entering}
use network.Fsm.Runtime.Runs.{Asked, In, NotIn, Stays, gate, stays_at}
use network.Fsm.Rollback.{
  scope, rollback_transitions, g_3_4_ready, g_3_7_triggered, g_3_8_succeeded, init, not_supported,
  confirmed, rollback_failed, rollback_succeeded, rollback_triggered, unknown, ready, armed,
}

-- The seven preconditions of a READY rollback.
abbrev pub preconditions : List String
preconditions =
    "precondition:MECHANISM_SUPPORTED_ON_VERSION" ∷ "precondition:ARTIFACT_EXISTS"
    ∷ "precondition:HASH_RECORDED" ∷ "precondition:FILESYSTEM_PREREQS"
    ∷ "precondition:TARGET_PRESERVES_MANAGEMENT_PATH"
    ∷ "precondition:ALL_COMMANDS_REVERSIBLE_BY_METHOD" ∷ "precondition:RECOVERY_PATH_VERIFIED" ∷ []

-- What a rollback that succeeded is to show.
abbrev pub success_demands : List String
success_demands = "rollback:reapplied" ∷ "rollback:post_verify_pass" ∷ "mgmt_path:reachable" ∷ []

abbrev pub ready_states : List String
ready_states =
    ready ∷ armed ∷ confirmed ∷ rollback_triggered ∷ rollback_succeeded ∷ rollback_failed ∷ []

abbrev pub triggered_states : List String
triggered_states = rollback_triggered ∷ rollback_succeeded ∷ rollback_failed ∷ []

abbrev pub succeeded_only : List String
succeeded_only = rollback_succeeded ∷ []

abbrev pub ended_states : List String
ended_states = not_supported ∷ confirmed ∷ rollback_succeeded ∷ rollback_failed ∷ unknown ∷ []

module _ (rec : Recorder) (m : Machine (rec.Log)) (rs : List Request)
    (table : m.fsm.table ≡ rollback_transitions) where
  -- A rollback that was not ready, and after any requests is READY, armed or beyond, was asked
  -- with evidence of each of the seven preconditions.
  pub ready_needs_preconditions :
      NotIn ready_states m
      → In ready_states (run rec m rs)
      → Asked (AllEvidenced scope preconditions) rs
  unfolding rollback_transitions contains entering g_3_4_ready judged
  ready_needs_preconditions =
      gate rec rollback_transitions m rs table ready_states (AllEvidenced scope preconditions)
        (λ c. (pass_if_all-accepted c scope preconditions " (3.4)").0, tt)

  triggered_needs_reason :
      NotIn triggered_states m
      → In triggered_states (run rec m rs)
      → Asked (Evidenced scope "rollback:trigger_reason") rs
  unfolding rollback_transitions contains entering g_3_7_triggered judged
  triggered_needs_reason =
      gate rec rollback_transitions m rs table triggered_states
        (Evidenced scope "rollback:trigger_reason")
        (
          λ c.
              (pass_if_any-accepted c scope "rollback:trigger_reason"
                "rollback:trigger_reason (3.7)").0,
          tt,
        )

  succeeded_needs_verification :
      NotIn succeeded_only m
      → In succeeded_only (run rec m rs)
      → Asked (AllEvidenced scope success_demands) rs
  unfolding rollback_transitions contains entering g_3_8_succeeded judged
  succeeded_needs_verification =
      gate rec rollback_transitions m rs table succeeded_only (AllEvidenced scope success_demands)
        (λ c. (pass_if_all-accepted c scope success_demands " (3.8)").0, tt)

  -- A rollback that starts in INIT and is reported as succeeded after any requests had its seven
  -- preconditions evidenced, a reason for the trigger, and evidence that the configuration was
  -- reapplied, that the verification behind it passed and that the management path is reachable.
  pub succeeded_accounts :
      m.fsm.state ≡ init
      → (run rec m rs).fsm.state ≡ rollback_succeeded
      → Asked (AllEvidenced scope preconditions) rs
        × Asked (Evidenced scope "rollback:trigger_reason") rs
        × Asked (AllEvidenced scope success_demands) rs
  unfolding contains
  succeeded_accounts h e = (
    ready_needs_preconditions (rw h) (rw e),
    triggered_needs_reason (rw h) (rw e),
    succeeded_needs_verification (rw h) (rw e),
  )

  -- No requests take a rollback out of a state in which it ended: what is not supported stays so,
  -- and a failed rollback is never reported as a success.
  pub outcome-Stays : All (Stays rec m rs) ended_states
  unfolding rollback_transitions contains entering
  outcome-Stays = (
    stays_at rec rollback_transitions m rs table not_supported refl,
    (
      stays_at rec rollback_transitions m rs table confirmed refl,
      (
        stays_at rec rollback_transitions m rs table rollback_succeeded refl,
        (
          stays_at rec rollback_transitions m rs table rollback_failed refl,
          (stays_at rec rollback_transitions m rs table unknown refl, tt),
        ),
      ),
    ),
  )
