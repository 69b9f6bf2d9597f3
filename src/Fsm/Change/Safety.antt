-- ===== src/Fsm/Change/Safety.antt =====
-- fsm/change_fsm.py: what a run of the change lifecycle can reach, and what it takes.
use network.Prelude.{◌≡◌, refl, List, [], ◌∷◌, String, All, contains}
use network.Ledger.Recorder.{Recorder}
use network.Fsm.Evidence.Laws.{AllEvidenced, pass_if_all-accepted}
use network.Fsm.Runtime.{Machine, Request, judged, run}
use network.Fsm.Runtime.Gates.{entering}
use network.Fsm.Runtime.Runs.{Asked, In, NotIn, Stays, gate, keeps, stays_at}
use network.Fsm.Change.{
  draft, scope, change_transitions, g_2_5_armed, g_2_13_closed, rejected, closed, applied, applying,
  armed, authorized, cleaned, closed, failed, manual_required, partial, recovering, rolled_back,
  verified, verifying,
}
use network.Fsm.Change.Guards.{
  arming_demands, closing_demands, Authorized, Verified, Cleaned, g_2_4-accepted, g_2_10-accepted,
  g_2_12-accepted,
}

-- Armed, or anything that only an armed change becomes.
abbrev pub armed_states : List String
armed_states =
    armed ∷ applying ∷ applied ∷ verifying ∷ verified ∷ cleaned ∷ closed ∷ failed ∷ partial
    ∷ rolled_back ∷ recovering ∷ manual_required ∷ []

abbrev pub authorized_states : List String
authorized_states = authorized ∷ armed_states

abbrev pub verified_states : List String
verified_states = verified ∷ cleaned ∷ closed ∷ []

abbrev pub cleaned_states : List String
cleaned_states = cleaned ∷ closed ∷ []

abbrev pub closed_only : List String
closed_only = closed ∷ []

abbrev pub ended_states : List String
ended_states = rejected ∷ closed ∷ rolled_back ∷ recovering ∷ manual_required ∷ []

module _ (rec : Recorder) (m : Machine (rec.Log)) (rs : List Request)
    (change : m.fsm.table ≡ change_transitions) where
  -- A change that was not armed, and after any requests is armed, applying or beyond, was asked
  -- to arm with evidence of all that guard 2.5 lists: a valid window, no conflict, a lock, a
  -- rollback that is READY and a recorded scope lock.
  pub armed_needs_rollback :
      NotIn armed_states m
      → In armed_states (run rec m rs)
      → Asked (AllEvidenced scope arming_demands) rs
  unfolding change_transitions contains entering g_2_5_armed judged
  armed_needs_rollback =
      gate rec change_transitions m rs change armed_states (AllEvidenced scope arming_demands)
        (λ c. (pass_if_all-accepted c scope arming_demands " (2.5)").0, tt)

  -- A change that was not authorized, and after any requests is authorized or beyond, was asked
  -- with a gate class and with evidence of all that guard 2.4 demands of that class: readiness and an
  -- ALLOW, with identity and MFA for an MFA gate, and with a human decision for a human-only gate.
  pub Authorized-needs_gate :
      NotIn authorized_states m → In authorized_states (run rec m rs) → Asked Authorized rs
  unfolding change_transitions contains entering judged
  Authorized-needs_gate =
      gate rec change_transitions m rs change authorized_states Authorized (g_2_4-accepted, tt)

  Verified-needs_tests :
      NotIn verified_states m → In verified_states (run rec m rs) → Asked Verified rs
  unfolding change_transitions contains entering judged
  Verified-needs_tests =
      gate rec change_transitions m rs change verified_states Verified (g_2_10-accepted, tt)

  Cleaned-needs_cleanup :
      NotIn cleaned_states m → In cleaned_states (run rec m rs) → Asked Cleaned rs
  unfolding change_transitions contains entering judged
  Cleaned-needs_cleanup =
      gate rec change_transitions m rs change cleaned_states Cleaned (g_2_12-accepted, tt)

  closed_needs_documents :
      NotIn closed_only m
      → In closed_only (run rec m rs)
      → Asked (AllEvidenced scope closing_demands) rs
  unfolding change_transitions contains entering g_2_13_closed judged
  closed_needs_documents =
      gate rec change_transitions m rs change closed_only (AllEvidenced scope closing_demands)
        (λ c. (pass_if_all-accepted c scope closing_demands " (2.13)").0, tt)

  -- A change that starts as a DRAFT and is CLOSED after any requests was authorized as guard 2.4
  -- demands, armed with a READY rollback, verified by tests or by human acceptance of those that
  -- did not pass, cleaned up, and documented with a complete audit chain.
  pub closed_accounts :
      m.fsm.state ≡ draft
      → (run rec m rs).fsm.state ≡ closed
      → Asked Authorized rs
        × Asked (AllEvidenced scope arming_demands) rs
        × Asked Verified rs
        × Asked Cleaned rs
        × Asked (AllEvidenced scope closing_demands) rs
  unfolding contains
  closed_accounts h e = (
    Authorized-needs_gate (rw h) (rw e),
    armed_needs_rollback (rw h) (rw e),
    Verified-needs_tests (rw h) (rw e),
    Cleaned-needs_cleanup (rw h) (rw e),
    closed_needs_documents (rw h) (rw e),
  )

  -- No requests take a change out of REJECTED, CLOSED, ROLLED_BACK, RECOVERING or
  -- MANUAL_REQUIRED: a veto is final, and a change that is over stays as it ended.
  pub ended-Stays : All (Stays rec m rs) ended_states
  unfolding change_transitions contains entering
  ended-Stays = (
    stays_at rec change_transitions m rs change rejected refl,
    (
      stays_at rec change_transitions m rs change closed refl,
      (
        stays_at rec change_transitions m rs change rolled_back refl,
        (
          stays_at rec change_transitions m rs change recovering refl,
          (stays_at rec change_transitions m rs change manual_required refl, tt),
        ),
      ),
    ),
  )

  -- No requests take a change that is armed, applying or beyond to REJECTED, or back to a state
  -- before ARMED.
  pub armed_stays : In armed_states m → In armed_states (run rec m rs)
  unfolding change_transitions contains entering
  armed_stays = keeps rec change_transitions m rs change armed_states refl
