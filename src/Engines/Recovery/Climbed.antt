-- ===== src/Engines/Recovery/Climbed.antt =====
-- engines/recovery_engine.py: what an `escalate` that returned has done.
use network.Prelude.{
  ℕ, suc, ◌≡◌, refl, ap, ◌∙◌, ◌⊎◌, inl, inr, Bool, true, false, not, ◌==◌, leb, Option, some, List,
  [], ◌∷◌, String, str_eq, arith, is_empty, ◌&&◌, Bool-cases, Option-cases,
}
use network.Core.Failures.{ok}
use network.Core.Counters.Laws.{Registered}
use network.Ledger.Recorder.{Recorder}
use network.Fsm.Recovery.{scope, recovery_transitions, escalating_l0}
use network.Engines.Capability.{CapabilityEngine}
use network.Engines.Driver.{Environment, Engine, kinds_of, evs_or}
use network.Engines.Driver.Items.{drive_shown-ok, evs_or-Evidences}
use network.Engines.Recovery.{
  ℤ, pos, negsuc, level_state, attempt_kind, excuses, unnamed, recovery_actor, fire_for,
  escalate_from, escalate,
}
use network.Engines.Recovery.Laws.{rung-from}
use network.Engines.Recovery.Excuses.{Excused}

-- What an `escalate` that returned has done.
pub record Climbed {L : Type 0} (capability : CapabilityEngine) (platform : String) (level_from : ℤ)
    (attempt_failed : Option Bool) (e after : Engine L) : Type 0 where
  pub level : ℕ
  pub given : level_from ≡ pos level
  pub below_l7 : leb 7 level ≡ false
  pub not_l4 : (level == 4) ≡ false
  pub came_from : e.machine.fsm.state ≡ level_state level
  pub came_to : after.machine.fsm.state ≡ level_state (suc level)
  pub cause : Excused capability platform level ⊎ (attempt_failed ≡ some true)
  pub counted : after.machine.counters ≡ e.machine.counters

module _ (rec : Recorder) (env : Environment) (capability : CapabilityEngine)
    (platform : String) where
  fire_for-ok :
      (n : ℕ) (entity : String) (given : List (String × String)) (e after : Engine (rec.Log))
      → e.machine.fsm.table ≡ recovery_transitions
      → Registered "gate_bypass" e.machine.counters
      → leb 7 n ≡ false
      → fire_for rec env (level_state (suc n)) entity given e ≡ (ok tt, after)
      → (e.machine.fsm.state ≡ level_state n)
        × (after.machine.fsm.state ≡ level_state (suc n))
        × (after.machine.counters ≡ e.machine.counters)
  unfolding fire_for
  fire_for-ok n entity given e after table c low h =
      let ((t, found), f, k) =
        drive_shown-ok rec env e after (evs_or env scope given e) recovery_actor scope
          (kinds_of given) entity (level_state (suc n)) (evs_or-Evidences env scope given e) c h in
      (rung-from n e.machine.fsm.state {t = t} low (rw table at found), rw f refl, k)

  escalate_from-ok :
      (device_ref : String) (n : ℕ) (attempt_failed : Option Bool) (e after : Engine (rec.Log))
      → e.machine.fsm.table ≡ recovery_transitions
      → Registered "gate_bypass" e.machine.counters
      → leb 7 n ≡ false
      → escalate_from rec env capability platform device_ref n attempt_failed e ≡ (ok tt, after)
      → (e.machine.fsm.state ≡ level_state n)
        × (after.machine.fsm.state ≡ level_state (suc n))
        × (after.machine.counters ≡ e.machine.counters)
        × (Excused capability platform n ⊎ (attempt_failed ≡ some true))
  unfolding escalate_from
  escalate_from-ok device_ref n attempt_failed e after table c low h =
      elim (Bool-cases (is_empty (excuses capability platform n))) [
        | inr some_excuse ↦
            let (a, b, k) =
              fire_for-ok n device_ref (unnamed (excuses capability platform n)) e after table c low
                (rw some_excuse at h) in
            (a, b, k, inl (λ z. ground (arith, some_excuse, z)))
        | inl no_excuse ↦ elim (Option-cases attempt_failed) [
          | inl absent ↦ absurd (cc (rw (no_excuse, absent) at h))
          | inr (outcome, told) ↦ elim (Bool-cases outcome) [
            | inr fine ↦ absurd (cc (rw (no_excuse, told, fine) at h))
            | inl failed ↦
                let (a, b, k) =
                  fire_for-ok n device_ref ((attempt_kind n, "") ∷ []) e after table c low
                    (rw (no_excuse, told, failed) at h) in
                (a, b, k, inr (told ∙ ap some failed))
          ]
        ]
      ]

  -- An `escalate` that returns, on the recovery table with counters that know the gate bypass, moved
  -- the recovery by exactly one level, from the level that it was given, below L7 and never out of
  -- L4; the matrix excuses that level, or the caller reported a failed attempt.
  pub escalate-ok :
      (device_ref : String) (level_from : ℤ) (attempt_failed : Option Bool)
      (e after : Engine (rec.Log))
      → e.machine.fsm.table ≡ recovery_transitions
      → Registered "gate_bypass" e.machine.counters
      → escalate rec env capability platform device_ref level_from attempt_failed e ≡ (ok tt, after)
      → Climbed capability platform level_from attempt_failed e after
  unfolding escalate
  escalate-ok device_ref (negsuc n) attempt_failed e after table c h = absurd (cc)
  escalate-ok device_ref (pos n) attempt_failed e after table c h = elim (Bool-cases (leb 7 n)) [
    | inl high ↦ absurd (cc (rw high at h))
    | inr low ↦ elim (Bool-cases (n == 4)) [
      | inl l4 ↦ absurd (cc (rw (low, l4) at h))
      | inr other ↦ elim (Bool-cases (n == 0 && not (str_eq e.machine.fsm.state escalating_l0))) [
        | inl early ↦ absurd (cc (rw (low, other, early) at h))
        | inr late ↦
            let (a, b, k, why) =
              escalate_from-ok device_ref n attempt_failed e after table c low
                (rw (low, other, late) at h) in
            record {
              level = n;
              given = refl;
              below_l7 = low;
              not_l4 = other;
              came_from = a;
              came_to = b;
              cause = why;
              counted = k;
            }
      ]
    ]
  ]
