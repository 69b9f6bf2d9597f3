-- ===== src/Engines/Autonomy/Laws.antt =====
-- engines/autonomy.py: when automation may execute, and what an approval is worth.
use network.Prelude.{
  ◌≤◌, ◌≡◌, refl, ◌↔◌, Bool, true, false, Option, none, some, String, eq_iff, arith, contains,
}
use network.Core.Failures.{ok}
use network.Fsm.Change.{mfa_gates}
use network.Engines.Autonomy.{
  AutonomyLevel, m3_controlled, level_index, locked_ceiling, auto_execute, Approval,
  AutonomyAuthority, authority, is_m3, decide, known_gate_classes, known_risk_classes,
}

is_m3-eq : (l : AutonomyLevel) → is_m3 l ≡ true → l ≡ m3_controlled
is_m3-eq m3_controlled h = refl
is_m3-eq _ h = cc

-- An authority can be made for a ceiling exactly if the ceiling is at most M3.
pub authority_iff :
    (l : AutonomyLevel)
    → (authority l ≡ ok (record { ceiling = l })) ↔ (level_index l ≤ level_index locked_ceiling)
unfolding authority
authority_iff l = (λ h. ground arith, λ h. ground arith)

-- The conditions under which work executes with no human.
pub record MayExecute (self : AutonomyAuthority) (gate risk : String) (not_modeled : Bool)
    : Type 0 where
  pub at_m3 : self.ceiling ≡ m3_controlled
  pub low_gate : gate ≡ "LOW_RISK"
  pub known_risk : contains risk known_risk_classes ≡ true
  pub modeled : not_modeled ≡ false

low_risk :
    (gate : String)
    → contains gate known_gate_classes ≡ true
    → contains gate mfa_gates ≡ false
    → gate ≡ "LOW_RISK"
unfolding contains
low_risk gate h k = ground (arith, eq_iff gate "LOW_RISK")

-- What the branches of `decide` have found when they come to AUTO_EXECUTE.
auto_execute_tests :
    (self : AutonomyAuthority) (gate risk : String) (nm : Bool) (given : Option Approval)
    → (decide self gate risk nm given).verdict ≡ auto_execute
    → (contains gate known_gate_classes ≡ true)
      × (contains gate mfa_gates ≡ false)
      × (contains risk known_risk_classes ≡ true)
      × (nm ≡ false)
      × (is_m3 self.ceiling ≡ true)
unfolding decide
auto_execute_tests self gate risk nm given h = ground arith

-- The verdict is AUTO_EXECUTE exactly if the ceiling is M3, the gate is LOW_RISK, the risk class
-- is known and nothing is NOT_MODELED, whatever approval is given.
pub decide-auto_execute :
    (self : AutonomyAuthority) (gate risk : String) (nm : Bool) (given : Option Approval)
    → ((decide self gate risk nm given).verdict ≡ auto_execute) ↔ MayExecute self gate risk nm
unfolding decide contains
decide-auto_execute self gate risk nm given = (
  λ h.
      let (known, open_gate, risky, modeled, m3) = auto_execute_tests self gate risk nm given h in
      record {
        at_m3 = is_m3-eq self.ceiling m3;
        low_gate = low_risk gate known open_gate;
        known_risk = risky;
        modeled = modeled;
      },
  λ h.
      rw (h.low_gate, decide)
        (rw (h.known_risk, decide) (rw (h.modeled, decide) (rw (h.at_m3, decide) refl))),
)

-- Whatever the ceiling, a decision on an MFA gate counts as approved only if an approval is given
-- whose MFA is verified.
pub decide-approved :
    (self : AutonomyAuthority) (gate risk : String) (nm : Bool) (given : Option Approval)
    → contains gate mfa_gates ≡ true
    → (decide self gate risk nm given).approval_satisfied ≡ true
    → (a : Approval) × (given ≡ some a) × (a.mfa_verified ≡ true)
unfolding decide
decide-approved self gate risk nm none h s = absurd (ground arith)
decide-approved self gate risk nm (some a) h s = (a, refl, ground arith)

-- The risk class decides nothing: with two known risk classes the verdict and the approval are the same.
pub decide_ignores_risk :
    (self : AutonomyAuthority) (gate r s : String) (nm : Bool) (given : Option Approval)
    → contains r known_risk_classes ≡ true
    → contains s known_risk_classes ≡ true
    → let d = decide self gate r nm given in
      let e = decide self gate s nm given in
      (d.verdict ≡ e.verdict)
      × (d.approval_satisfied ≡ e.approval_satisfied)
      × (d.human_decided ≡ e.human_decided)
unfolding decide
decide_ignores_risk self gate r s nm given h k = ground arith
