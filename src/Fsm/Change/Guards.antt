-- ===== src/Fsm/Change/Guards.antt =====
-- fsm/change_fsm.py: what an accepting guard of the change lifecycle has been shown.
use network.Prelude.{
  ◌≡◌, ◌≢◌, ◌⊎◌, inl, inr, true, false, Bool, ◌++◌, contains, if◌then◌else◌, List, [], ◌∷◌, String,
  arith, is_empty, is_filled, Bool-cases, ◌+++◌, eq_iff,
}
use network.Fsm.Evidence.{Ctx, evidence_of, deny_missing, pass_if_any}
use network.Fsm.Evidence.Laws.{Evidenced, AllEvidenced, has_evidence-ne_nil, pass_if_all-accepted}
use network.Fsm.Change.{
  mfa_gates, human_only_gates, scope, g_2_4_authorized, kinds_2_4, g_2_10_verified, g_2_12_cleaned,
}

abbrev pub Shown : String → Ctx → Type 0
Shown kind ctx = Evidenced scope kind ctx

-- Every test passed, or there is a recorded acceptance beside the tests that did not.
abbrev pub Verified : Ctx → Type 0
Verified ctx =
    Shown "tests:all_pass" ctx
    ⊎ (Shown "tests:non_pass_present" ctx × Shown "tests:human_acceptance_per_non_pass" ctx)

-- What an authorized change has been shown: with an MFA gate the approver and MFA too, and with a
-- human-only gate the human decision.
pub record Authorized (ctx : Ctx) : Type 0 where
  pub has_gate : ctx.gate_class ≢ ""
  pub ready : Shown "readiness:all_true" ctx
  pub allowed : Shown "gate_verdict:ALLOW" ctx
  pub approved :
      contains ctx.gate_class mfa_gates ≡ true
      → Shown "approval:rbac_identity" ctx × Shown "approval:mfa_verified" ctx
  pub decided :
      contains ctx.gate_class human_only_gates ≡ true → Shown "gate_verdict:HUMAN_DECIDED" ctx

abbrev pub Cleaned : Ctx → Type 0
Cleaned ctx = Shown "temp_resources:zero" ctx ⊎ Shown "temp_resources:preserved_by_approval" ctx

-- What guard 2.5 is to see before a change is armed.
abbrev pub arming_demands : List String
arming_demands =
    "window:valid" ∷ "scheduler:no_conflict" ∷ "lock:acquirable" ∷ "rollback:READY"
    ∷ "scope_lock:recorded" ∷ []

-- What guard 2.13 is to see before a change is closed.
abbrev pub closing_demands : List String
closing_demands = "twin:refreshed_from_observed" ∷ "docs:emitted" ∷ "audit:chain_complete" ∷ []

shown : (ctx : Ctx) (kind : String) → is_empty (evidence_of ctx scope kind) ≡ false → Shown kind ctx
shown ctx kind h = (has_evidence-ne_nil ctx scope kind).0 (λ e. ground arith)

approval_kinds :
    (ctx : Ctx) (b c : Bool)
    → AllEvidenced scope
        ((if b then "approval:rbac_identity" ∷ "approval:mfa_verified" ∷ [] else [])
          ++ (if c then "gate_verdict:HUMAN_DECIDED" ∷ [] else []))
        ctx
    → (b ≡ true → Shown "approval:rbac_identity" ctx × Shown "approval:mfa_verified" ctx)
      × (c ≡ true → Shown "gate_verdict:HUMAN_DECIDED" ctx)
approval_kinds ctx true true (r, (m, (d, done))) = (λ e. (r, m), λ e. d)
approval_kinds ctx true false (r, (m, done)) = (λ e. (r, m), λ e. absurd (cc))
approval_kinds ctx false true (d, done) = (λ e. absurd (cc), λ e. d)
approval_kinds ctx false false done = (λ e. absurd (cc), λ e. absurd (cc))

kinds_2_4-Authorized :
    (ctx : Ctx)
    → ctx.gate_class ≢ ""
    → AllEvidenced scope (kinds_2_4 ctx.gate_class) ctx
    → Authorized ctx
kinds_2_4-Authorized ctx named (ready, (allowed, others)) =
    let (approved, decided) =
      approval_kinds ctx (contains ctx.gate_class mfa_gates)
        (contains ctx.gate_class human_only_gates) others in
    record {
      has_gate = named;
      ready = ready;
      allowed = allowed;
      approved = approved;
      decided = decided;
    }

-- Guard 2.4 accepts only a context that names a gate class and evidences what it demands.
pub g_2_4-accepted : (ctx : Ctx) → (g_2_4_authorized ctx).accepted ≡ true → Authorized ctx
unfolding g_2_4_authorized
g_2_4-accepted ctx h = elim (Bool-cases (is_filled ctx.gate_class)) [
  | inr f ↦ absurd (ground (arith, f))
  | inl f ↦
      kinds_2_4-Authorized ctx (λ e. ground (arith, eq_iff ctx.gate_class ""))
        ((pass_if_all-accepted ctx scope (kinds_2_4 ctx.gate_class)
            (" (2.4, gate=" +++ ctx.gate_class +++ ")")).0
          (ground (arith, f)))
]

pub g_2_10-accepted : (ctx : Ctx) → (g_2_10_verified ctx).accepted ≡ true → Verified ctx
unfolding g_2_10_verified
g_2_10-accepted ctx h = elim (Bool-cases (is_empty (evidence_of ctx scope "tests:all_pass"))) [
  | inr e ↦ inl (shown ctx "tests:all_pass" e)
  | inl e ↦ inr (
    shown ctx "tests:non_pass_present" (ground arith),
    shown ctx "tests:human_acceptance_per_non_pass" (ground arith),
  )
]

pub g_2_12-accepted : (ctx : Ctx) → (g_2_12_cleaned ctx).accepted ≡ true → Cleaned ctx
unfolding g_2_12_cleaned pass_if_any deny_missing
g_2_12-accepted ctx h = elim (Bool-cases (is_empty (evidence_of ctx scope "temp_resources:zero"))) [
  | inr e ↦ inl (shown ctx "temp_resources:zero" e)
  | inl e ↦ inr (shown ctx "temp_resources:preserved_by_approval" (ground arith))
]
