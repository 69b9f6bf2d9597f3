-- ===== src/Core/TimeAuth/Laws.antt =====
-- core/timeauth.py: which evidence is fresh at the time of a decision.
use network.Prelude.{
  ℕ, ◌-◌, ◌≤◌, ◌≡◌, ◌⊎◌, inl, inr, Bool, true, false, Option, none, some, String, arith,
  Option-cases,
}
use network.Prelude.Dict.{lookup}
use network.Core.Failures.{ok, >>=-eq-ok}
use network.Core.TimeAuth.{
  ClockStatus, is_synced, decision_freshness_bounds, Datetime, FreshnessVerdict, TimeAuthority, now,
  require_aware, elapsed, age_seconds, verdict, evaluate,
}

-- The decision class has this bound.
abbrev pub Bounds : String → Option ℕ → Type 0
Bounds kind bound = lookup kind decision_freshness_bounds ≡ some bound

-- Both instants are aware, and the evidence is not from the future.
pub record Dated (ta : TimeAuthority) (collected_at : Datetime) : Type 0 where
  pub clock_aware : ta.clock.aware ≡ true
  pub collected_aware : collected_at.aware ≡ true
  pub past : collected_at.instant ≤ ta.clock.instant

-- The evidence is within a bound, by a clock that can be relied on if that is required; without a
-- bound it always is.
abbrev pub Fresh : ClockStatus → Bool → Option ℕ → ℕ → Type 0
Fresh status hard none age = Unit
Fresh status hard (some limit) age = (age ≤ limit) × ((is_synced status ≡ true) ⊎ (hard ≡ false))

age_seconds-ok :
    (ta : TimeAuthority) (c : Datetime) {age : ℕ}
    → age_seconds ta c ≡ ok age
    → (age ≡ ta.clock.instant - c.instant) × (c.instant ≤ ta.clock.instant)
unfolding age_seconds now require_aware elapsed
age_seconds-ok ta c h = ground arith

-- What an evaluation that returns has looked up.
evaluate-ok :
    (ta : TimeAuthority) (kind : String) (c : Datetime) (hard : Bool) {v : FreshnessVerdict}
    → evaluate ta kind c hard ≡ ok v
    → (bound : Option ℕ) × Bounds kind bound
      × (v ≡ verdict ta.status hard bound (ta.clock.instant - c.instant))
      × (c.instant ≤ ta.clock.instant)
unfolding evaluate
evaluate-ok ta kind c hard {v} h = elim (Option-cases (lookup kind decision_freshness_bounds)) [
  | inl e ↦ absurd (ground (arith, e))
  | inr (bound, e) ↦
      let (age, dated, made) =
        >>=-eq-ok (age_seconds ta c) (λ age. ok (verdict ta.status hard bound age)) {y = v}
          (ground (arith, e)) in
      let (same, past) = age_seconds-ok ta c dated in (bound, e, ground (arith, made, same), past)
]

verdict_stale :
    (status : ClockStatus) (hard : Bool) (bound : Option ℕ) (age older : ℕ)
    → age ≤ older
    → (verdict status hard bound age).is_ok ≡ false
    → (verdict status hard bound older).is_ok ≡ false
unfolding verdict
verdict_stale status hard none age older l h = ground arith
verdict_stale status hard (some limit) age older l h = ground arith

-- Evidence with a verdict that is not ok has none that is ok at any later time of a clock in the
-- same status, where both evaluations return.
pub stale_later :
    (ta later : TimeAuthority) (kind : String) (c : Datetime) (hard : Bool) {v w : FreshnessVerdict}
    → ta.status ≡ later.status
    → ta.clock.instant ≤ later.clock.instant
    → evaluate ta kind c hard ≡ ok v
    → evaluate later kind c hard ≡ ok w
    → v.is_ok ≡ false
    → w.is_ok ≡ false
stale_later ta later kind c hard {v} {w} same order h k stale =
    let (bound, found, made, past) = evaluate-ok ta kind c hard {v = v} h in
    let (bound', found', made', past') = evaluate-ok later kind c hard {v = w} k in
    let one : bound ≡ bound' = cc (found, found') in
    let older =
      verdict_stale ta.status hard bound (ta.clock.instant - c.instant)
        (later.clock.instant - c.instant) (omega arith) (rw (← made) stale) in
    rw (made', ← one, ← same) older
