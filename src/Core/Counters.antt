-- ===== src/Core/Counters.antt =====
-- core/counters.py: the ten T5 release-gate counters.
pub mod Laws
use network.Prelude.{
  ℕ, ◌≡◌, refl, Option, none, some, List, [], ◌∷◌, ◌++◌, map, String, arith, length, is_empty,
  if◌then◌else◌,
}
use network.Prelude.Dict.{Dict, lookup, insert}
use network.Core.Failures.{Result, ok, err, key_error, gate_failed}

abbrev pub t5_counters : List String
t5_counters =
    "unauthorized_changes" ∷ "unsupported_PASS" ∷ "entity_hallucinations" ∷ "scope_violations"
    ∷ "credential_exposure" ∷ "cleanup_leaks" ∷ "gate_bypass" ∷ "stale_evidence_deployments"
    ∷ "management_path_violations" ∷ "unverified_claims" ∷ []

pub record CounterCollector : Type 0 where
  pub values : Dict (List String)

unfoldable pub new : CounterCollector
new = record { values = map (λ name. (name, [])) t5_counters }

append_reason : String → String → CounterCollector → Option (List String) → Result CounterCollector
append_reason name reason c none = err (key_error name)
append_reason name reason c (some rs) =
    ok (record { values = insert name (rs ++ (reason ∷ [])) c.values })

unfoldable pub increment : String → String → CounterCollector → Result CounterCollector
unfolding append_reason
increment name reason c = append_reason name reason c (lookup name c.values)

-- `reasons`
unfoldable pub reasons : String → CounterCollector → Result (List String)
reasons name c = elim (lookup name c.values) [ none ↦ err (key_error name) | some rs ↦ ok rs ]

unfoldable pub value : String → CounterCollector → Result ℕ
value name c = elim (lookup name c.values) [
  | none ↦ err (key_error name)
  | some rs ↦ ok (length rs)
]

unfoldable pub snapshot : Dict (List String) → Dict ℕ
snapshot [] = []
snapshot ((name, rs) ∷ m) = (name, length rs) ∷ snapshot m

-- the dict comprehension with `if v`
unfoldable pub non_zero : Dict (List String) → Dict ℕ
non_zero [] = []
non_zero ((name, rs) ∷ m) = if is_empty rs then non_zero m else (name, length rs) ∷ non_zero m

unfoldable pub assert_release_gate : CounterCollector → Result (Unit {0})
unfolding non_zero
assert_release_gate c =
    let bad = non_zero c.values in if is_empty bad then ok tt else err (gate_failed bad)
