-- ===== src/Engines/Recovery/Ladder.antt =====
-- engines/recovery_engine.py: which calls take a recovery up its levels, and out of them.
use network.Prelude.{
  ℕ, zero, suc, ◌≡◌, refl, ap, ◌⊎◌, inl, inr, Bool, true, false, not, ◌==◌, leb, Option, some, List,
  [], ◌∷◌, Memᴰ, String, str_eq, arith, is_filled, is_empty, contains, ◌&&◌, Bool-cases,
}
use network.Ledger.Models.{fsm_labels}
use network.Ledger.Recorder.{Recorder}
use network.Fsm.Evidence.Laws.{pass_if_all-accepted}
use network.Fsm.Runtime.{GuardedFsm, find_transition, edge, judged}
use network.Fsm.Recovery.{
  fsm_label, scope, kinds_5_2, g_5_2_step, g_5_3_recovered, g_5_4_into_l5, recovery_transitions,
  escalating_l0, escalating_l4, escalating_l5, recovered,
}
use network.Engines.Capability.{CapabilityEngine, recovery_lookup, is_not_supported}
use network.Engines.Driver.{Environment, Engine, kinds_of, evs_or}
use network.Engines.Driver.Laws.{Takes, Placed, Driven}
use network.Engines.Driver.Items.{drive_shown_takes, evs_or-Evidences}
use network.Engines.Recovery.{
  pos, level_state, attempt_kind, excuses, unnamed, recovery_actor, fire_for, escalate_from,
  escalate, destructive_kind, escalate_into_destructive, recover,
}
use network.Engines.Recovery.Laws.{rung, rung-recovered, level_state-filled, g_5_4-accepts}
use network.Engines.Recovery.Excuses.{Excused, Lets, kinds-unnamed, attempt-Lets, excuses-Lets}

label_known : contains fsm_label fsm_labels ≡ true
unfolding contains
label_known = refl

destructive_kind-mem :
    (capability : CapabilityEngine) (platform : String)
    → Memᴰ (destructive_kind capability platform) (kinds_5_2 4)
unfolding destructive_kind
destructive_kind-mem capability platform =
    elim (Bool-cases
      (is_not_supported (recovery_lookup capability platform "console_recovery").status)) [
        | inl y ↦ rw y (Memᴰ.tail (Memᴰ.head refl))
        | inr n ↦ rw n (Memᴰ.head refl)
      ]

at_l4 : (s : String) → s ≡ escalating_l4 → str_eq s escalating_l4 ≡ true
at_l4 s h = rw h refl

empty-nil : (xs : List String) → is_empty xs ≡ true → xs ≡ []
empty-nil [] h = refl
empty-nil (x ∷ xs) h = absurd (ground arith)

started : (n : ℕ) → (n == 0 && not (str_eq (level_state n) escalating_l0)) ≡ false
started zero = refl
started (suc n) = ground arith

started_at :
    (n : ℕ) (s : String) → s ≡ level_state n → (n == 0 && not (str_eq s escalating_l0)) ≡ false
started_at n s h = rw h (started n)

module _ (rec : Recorder) (env : Environment) (takes : Takes rec env) where
  climbs :
      (n : ℕ) (entity : String) (kinds : List String) (e : Engine (rec.Log))
      → leb 7 n ≡ false
      → (n == 4) ≡ false
      → Lets n kinds
      → Placed rec env fsm_label recovery_transitions (level_state n) e
      → is_filled entity ≡ true
      → Driven rec env fsm_label recovery_transitions
          (level_state (suc n))
          tt
          e
          (fire_for rec env (level_state (suc n)) entity (unnamed kinds) e)
  unfolding fire_for judged
  climbs n entity kinds e low other lets here named =
      drive_shown_takes rec env takes fsm_label recovery_transitions label_known e
        (evs_or env scope (unnamed kinds) e) recovery_actor scope kinds entity (level_state n)
        (level_state (suc n)) (edge (level_state n) (level_state (suc n)) "5.2" (g_5_2_step n))
        (rw (kinds-unnamed kinds) at (evs_or-Evidences env scope (unnamed kinds) e)) here
        (rung n low other) lets (level_state-filled n (ground (arith, low)))
        (level_state-filled (suc n) (ground (arith, low))) refl named

  escalate_from_takes :
      (capability : CapabilityEngine) (platform device_ref : String) (n : ℕ)
      (attempt_failed : Option Bool) (e : Engine (rec.Log))
      → leb 7 n ≡ false
      → (n == 4) ≡ false
      → Excused capability platform n ⊎ (attempt_failed ≡ some true)
      → Placed rec env fsm_label recovery_transitions (level_state n) e
      → is_filled device_ref ≡ true
      → Driven rec env fsm_label recovery_transitions
          (level_state (suc n))
          tt
          e
          (escalate_from rec env capability platform device_ref n attempt_failed e)
  unfolding escalate_from
  escalate_from_takes capability platform device_ref n attempt_failed e low other cause here named =
      elim (Bool-cases (is_empty (excuses capability platform n))) [
        | inr some_excuse ↦ rw some_excuse (
            climbs n device_ref (excuses capability platform n) e low other
              (excuses-Lets capability platform n (λ z. ground (arith, some_excuse, z))) here named)
        | inl no_excuse ↦ elim cause [
          | inl excused ↦ absurd (excused (empty-nil _ no_excuse))
          | inr failed ↦
              rw (no_excuse, failed)
                (climbs n device_ref (attempt_kind n ∷ []) e low other (attempt-Lets n) here named)
        ]
      ]

  -- With a recorder that takes every valid record under a new id, and with ids that neither
  -- repeat nor stand in its log, `escalate` of a named device takes a recovery at level n, below
  -- L7 and not L4, to the next level if the matrix excuses level n or the caller reports that
  -- the attempt failed; no counter moves.
  pub escalate_takes :
      (capability : CapabilityEngine) (platform device_ref : String) (n : ℕ)
      (attempt_failed : Option Bool) (e : Engine (rec.Log))
      → leb 7 n ≡ false
      → (n == 4) ≡ false
      → Excused capability platform n ⊎ (attempt_failed ≡ some true)
      → Placed rec env fsm_label recovery_transitions (level_state n) e
      → is_filled device_ref ≡ true
      → Driven rec env fsm_label recovery_transitions
          (level_state (suc n))
          tt
          e
          (escalate rec env capability platform device_ref (pos n) attempt_failed e)
  unfolding escalate
  escalate_takes capability platform device_ref n attempt_failed e low other cause here named =
      rw
        (low, other, started_at n e.machine.fsm.state (ap (λ (fsm : GuardedFsm). fsm.state) here.0))
        (escalate_from_takes capability platform device_ref n attempt_failed e low other cause here
          named)

  -- With a recorder that takes every valid record under a new id, and with ids that neither
  -- repeat nor stand in its log, a recovery of a named device at L4 enters L5 on any text given
  -- as a human decision, whatever the matrix says of the console and with no outcome of an
  -- attempt at L4; no counter moves.
  pub destructive_takes :
      (capability : CapabilityEngine) (platform device_ref human_decision : String)
      (e : Engine (rec.Log))
      → is_filled human_decision ≡ true
      → Placed rec env fsm_label recovery_transitions escalating_l4 e
      → is_filled device_ref ≡ true
      → Driven rec env fsm_label recovery_transitions escalating_l5 tt e
          (escalate_into_destructive rec env capability platform device_ref human_decision e)
  unfolding escalate_into_destructive fire_for find_transition recovery_transitions judged
      destructive_kind
  destructive_takes capability platform device_ref human_decision e decided here named =
      let k = destructive_kind capability platform in
      let given = (k, "") ∷ ("gate:DESTRUCTIVE_human_decision", human_decision) ∷ [] in
      rw (decided, at_l4 e.machine.fsm.state (ap (λ (fsm : GuardedFsm). fsm.state) here.0))
        (drive_shown_takes rec env takes fsm_label recovery_transitions label_known e
          (evs_or env scope given e) recovery_actor scope (kinds_of given) device_ref escalating_l4
          escalating_l5 (edge escalating_l4 escalating_l5 "5.2" g_5_4_into_l5)
          (evs_or-Evidences env scope given e) here refl
          (λ c v. g_5_4-accepts c k (destructive_kind-mem capability platform) v.0 v.1.0) refl refl
          refl named)

  -- With a recorder that takes every valid record under a new id, and with ids that neither
  -- repeat nor stand in its log, a recovery of a named device that is at any level becomes
  -- RECOVERED on any three texts given as evidence ids, empty ones included, and no counter
  -- moves.
  pub recover_takes :
      (device_ref reachability_id identity_id reclassification_id : String) (n : ℕ)
      (e : Engine (rec.Log))
      → leb 8 n ≡ false
      → Placed rec env fsm_label recovery_transitions (level_state n) e
      → is_filled device_ref ≡ true
      → Driven rec env fsm_label recovery_transitions recovered tt e
          (recover rec env device_ref reachability_id identity_id reclassification_id e)
  unfolding recover fire_for g_5_3_recovered judged
  recover_takes device_ref a b c n e low here named =
      let given =
        ("device:reachable_again", a)
        ∷ ("identity:reconfirmed", b)
        ∷ ("state:reclassified", c)
        ∷ [] in
      drive_shown_takes rec env takes fsm_label recovery_transitions label_known e
        (evs_or env scope given e) recovery_actor scope (kinds_of given) device_ref (level_state n)
        recovered (edge (level_state n) recovered "5.3" g_5_3_recovered)
        (evs_or-Evidences env scope given e) here (rung-recovered n low)
        (λ ctx v. (pass_if_all-accepted ctx scope (kinds_of given) " (5.3)").1 v)
        (level_state-filled n low) refl refl named
