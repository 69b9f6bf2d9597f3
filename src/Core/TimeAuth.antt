-- ===== src/Core/TimeAuth.antt =====
-- core/timeauth.py: the time authority. An instant is a number of microseconds, the resolution of
-- `datetime`, and so are an age and a bound.
pub mod Laws
use network.Prelude.{
  ℕ, ◌-◌, ◌*◌, Bool, true, false, not, ◌&&◌, Option, none, some, List, [], ◌∷◌, String, str_eq, ltb,
  leb, if◌then◌else◌, ◌+++◌,
}
use network.Prelude.Dict.{Dict, lookup}
use network.Core.Failures.{
  FailureClass, blocked_class, Result, ok, err, key_error, value_error, ◌>>=◌, ◌>>◌, is_some,
}

pub data ClockStatus : Type 0 where
  synced unsynced drift_suspected : ClockStatus

abbrev pub is_synced : ClockStatus → Bool
is_synced synced = true
is_synced _ = false

abbrev pub seconds : ℕ → ℕ
seconds n = n * 1000000

-- `None` is unbounded.
abbrev pub decision_freshness_bounds : Dict (Option ℕ)
decision_freshness_bounds =
    ("DEPLOY", some (seconds 60))
    ∷ ("ROLLBACK", some (seconds 60))
    ∷ ("DESIGN", some (seconds (24 * 3600)))
    ∷ ("DOCUMENTATION", none)
    ∷ ("MONITORING", some (seconds (5 * 60)))
    ∷ []

pub record Datetime : Type 0 where
  pub aware : Bool
  pub instant : ℕ

-- `_require_aware`
unfoldable pub require_aware : Datetime → Result Datetime
require_aware dt =
    if dt.aware
    then ok dt
    else err (value_error "naive datetime rejected: Time Authority requires aware timestamps")

pub record FreshnessVerdict : Type 0 where
  pub is_ok : Bool
  pub age_seconds : ℕ
  pub bound_seconds : Option ℕ
  pub clock_status : ClockStatus
  pub reason : String
  pub failure_class : Option FailureClass

-- The authority with what its clock reads at the call.
pub record TimeAuthority : Type 0 where
  pub clock : Datetime
  pub status : ClockStatus

unfoldable pub now : TimeAuthority → Result Datetime
unfolding require_aware
now ta = require_aware ta.clock

-- the age, or the anomaly
elapsed : ℕ → ℕ → Result ℕ
elapsed t collected =
    if ltb t collected
    then err (value_error "collected_at in the future: clock anomaly, age undefined")
    else ok (t - collected)

unfoldable pub age_seconds : TimeAuthority → Datetime → Result ℕ
unfolding now require_aware elapsed
age_seconds ta collected_at = do
  c ← require_aware collected_at
  t ← now ta
  elapsed t.instant c.instant

-- `evaluate` behind its lookup and the age
unfoldable pub verdict : ClockStatus → Bool → Option ℕ → ℕ → FreshnessVerdict
verdict status hard bound age =
    if not (is_synced status) && hard && is_some bound
    then record {
      is_ok = false;
      age_seconds = age;
      bound_seconds = bound;
      clock_status = status;
      reason = "COLLECTOR_CLOCK_NOT_SYNCED: age is only a lower bound";
      failure_class = some blocked_class;
    }
    else elim bound [
      | none ↦ record {
        is_ok = true;
        age_seconds = age;
        bound_seconds = none;
        clock_status = status;
        reason = "DOCUMENTATION_CLASS: unbounded, age must be printed";
        failure_class = none;
      }
      | some limit ↦ record {
        is_ok = leb age limit;
        age_seconds = age;
        bound_seconds = some limit;
        clock_status = status;
        reason =
            if leb age limit
            then "WITHIN_BOUND"
            else "STALE: re-collect before proceeding or BLOCK";
        failure_class = none;
      }
    ]

unfoldable pub evaluate : TimeAuthority → String → Datetime → Bool → Result FreshnessVerdict
evaluate ta kind collected_at hard = elim (lookup kind decision_freshness_bounds) [
  | none ↦ err (key_error ("unknown decision kind: '" +++ kind +++ "'"))
  | some bound ↦ age_seconds ta collected_at >>= λ age. ok (verdict ta.status hard bound age)
]
