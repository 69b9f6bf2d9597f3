-- ===== src/Engines/Change/Evidence.antt =====
-- engines/change_engine.py: the evidence that each step hands to its guard is what the guard asks.
use network.Prelude.{
  ◌≡◌, refl, ◌≢◌, Bool, true, false, ◌&&◌, ◌||◌, Option, List, [], ◌∷◌, ◌++◌, Memᴰ, String, arith,
  eq_iff, is_empty, is_filled, contains, if◌then◌else◌, inl, inr, Bool-cases, All-split, All-imp,
  ◌+++◌,
}
use network.Fsm.Evidence.{
  Item, Ctx, ev, evidence_of, pass_if_all, missing_kinds, found_ids, deny_missing, pass_with,
}
use network.Fsm.Evidence.Laws.{Evidenced, AllEvidenced, has_evidence-ne_nil, pass_if_all-accepted}
use network.Fsm.Change.{
  scope, mfa_gates, human_only_gates, kinds_2_4, g_2_1_validated, g_2_4_authorized,
}
use network.Engines.Autonomy.{
  Approval, AutonomyAuthority, AutonomyDecision, mfa_approved, decide, known_gate_classes,
}
use network.Engines.Driver.{only}
use network.Engines.Change.{approved_kinds, undecided, is_verdict_blocked, is_human_only, is_auto}

Mem-append_left : (i : Item) (xs ys : List Item) → Memᴰ i xs → Memᴰ i (xs ++ ys)
Mem-append_left i [] ys m = elim m [ ]
Mem-append_left i (x ∷ xs) ys (Memᴰ.head e) = Memᴰ.head e
Mem-append_left i (x ∷ xs) ys (Memᴰ.tail m) = Memᴰ.tail (Mem-append_left i xs ys m)

Mem-append_right : (i : Item) (xs ys : List Item) → Memᴰ i ys → Memᴰ i (xs ++ ys)
Mem-append_right i [] ys m = m
Mem-append_right i (x ∷ xs) ys m = Memᴰ.tail (Mem-append_right i xs ys m)

-- Evidence stays evidence beside other items, in a context with any gate class.
abbrev pub Has : String → List Item → Type 0
Has kind items = Evidenced scope kind (only items)

pub Has-left : (kind : String) (xs ys : List Item) → Has kind xs → Has kind (xs ++ ys)
Has-left kind xs ys (i, m, b) = (i, Mem-append_left i xs ys m, b)

pub Has-right : (kind : String) (xs ys : List Item) → Has kind ys → Has kind (xs ++ ys)
Has-right kind xs ys (i, m, b) = (i, Mem-append_right i xs ys m, b)

pub AllHas-right :
    (kinds : List String) (xs ys : List Item)
    → AllEvidenced scope kinds (only ys)
    → AllEvidenced scope kinds (only (xs ++ ys))
AllHas-right kinds xs ys h =
    All-imp (λ kind. Has kind ys) (λ kind. Has kind (xs ++ ys)) kinds
      (λ kind v. Has-right kind xs ys v) h

filled :
    (ctx : Ctx) (kind : String)
    → Evidenced scope kind ctx
    → is_empty (evidence_of ctx scope kind) ≡ false
filled ctx kind v = ground (arith, (has_evidence-ne_nil ctx scope kind).1 v)

-- Guard 2.1 accepts a fabric that passed and whose NOT_MODELED is recorded.
pub g_2_1-accepts_noted :
    (ctx : Ctx)
    → AllEvidenced scope
        ("validation_fabric:PASS" ∷ "validation_fabric:NOT_MODELED"
          ∷ "validation_fabric:not_modeled_recorded" ∷ [])
        ctx
    → (g_2_1_validated ctx).accepted ≡ true
unfolding g_2_1_validated pass_with deny_missing
g_2_1-accepts_noted ctx h =
    rw
      (
        filled ctx "validation_fabric:PASS" h.0,
        filled ctx "validation_fabric:NOT_MODELED" h.1.0,
        filled ctx "validation_fabric:not_modeled_recorded" h.1.1.0,
      )
      refl

-- Guard 2.1 accepts a fabric that passed and has modelled the change.
pub g_2_1-accepts_modeled :
    (id : String)
    → id ≢ ""
    → (g_2_1_validated (only (ev scope "validation_fabric:PASS" id ∷ []))).accepted ≡ true
unfolding g_2_1_validated pass_with deny_missing evidence_of ev
g_2_1-accepts_modeled id h = ground (arith, eq_iff id "", h)

known_filled : (gate : String) → contains gate known_gate_classes ≡ true → is_filled gate ≡ true
unfolding contains
known_filled gate h = elim (Bool-cases (is_filled gate)) [
  | inl y ↦ y
  | inr n ↦
      let blank : gate ≡ "" = (eq_iff gate "").0 (ground (arith, n)) in absurd (cc (rw blank at h))
]

-- What a decision that lets a change be authorized has found.
pub record Lawful (approval : Option Approval) (d : AutonomyDecision) : Type 0 where
  pub named : is_filled d.gate_class ≡ true
  pub approved : contains d.gate_class mfa_gates ≡ true → mfa_approved approval ≡ true
  pub human : contains d.gate_class human_only_gates ≡ true → is_human_only d.verdict ≡ true
  pub allowed : (is_auto d.verdict || d.approval_satisfied) ≡ true

pub decide-Lawful :
    (self : AutonomyAuthority) (gate risk : String) (nm : Bool) (approval : Option Approval)
    → is_verdict_blocked (decide self gate risk nm approval).verdict ≡ false
    → undecided (decide self gate risk nm approval) ≡ false
    → Lawful approval (decide self gate risk nm approval)
unfolding decide undecided
decide-Lawful self gate risk nm approval h k = record {
  named = ground (arith, known_filled gate);
  approved = ground arith;
  human = ground arith;
  allowed = ground arith;
}

if-Has :
    (b : Bool) (kinds : List String) (c : Ctx)
    → AllEvidenced scope (if b then kinds else []) c
    → b ≡ true
    → AllEvidenced scope kinds c
if-Has true kinds c h e = h
if-Has false kinds c h e = absurd (cc)

assemble :
    (mfa human : Bool) (c : Ctx)
    → Evidenced scope "readiness:all_true" c
    → Evidenced scope "gate_verdict:ALLOW" c
    → (mfa ≡ true → AllEvidenced scope ("approval:rbac_identity" ∷ "approval:mfa_verified" ∷ []) c)
    → (human ≡ true → AllEvidenced scope ("gate_verdict:HUMAN_DECIDED" ∷ []) c)
    → AllEvidenced scope
        ("readiness:all_true"
            ∷ "gate_verdict:ALLOW"
            ∷ (if mfa then "approval:rbac_identity" ∷ "approval:mfa_verified" ∷ [] else [])
          ++ (if human then "gate_verdict:HUMAN_DECIDED" ∷ [] else []))
        c
assemble true true c r a m h = (r, (a, ((m refl).0, ((m refl).1.0, ((h refl).0, tt)))))
assemble true false c r a m h = (r, (a, ((m refl).0, ((m refl).1.0, tt))))
assemble false true c r a m h = (r, (a, ((h refl).0, tt)))
assemble false false c r a m h = (r, (a, tt))

-- Guard 2.4 accepts the evidence of a lawful decision on a ready change.
pub g_2_4-accepts :
    (approval : Option Approval) (d : AutonomyDecision) (ctx : Ctx)
    → Lawful approval d
    → ctx.gate_class ≡ d.gate_class
    → Evidenced scope "readiness:all_true" ctx
    → AllEvidenced scope (approved_kinds approval d) ctx
    → (g_2_4_authorized ctx).accepted ≡ true
unfolding g_2_4_authorized approved_kinds pass_if_all missing_kinds found_ids evidence_of
g_2_4-accepts approval d ctx lawful gate ready h =
    let mfa = contains d.gate_class mfa_gates in
    let first = mfa_approved approval && mfa in
    let second = is_human_only d.verdict in
    let third = is_auto d.verdict || d.approval_satisfied in
    let (s1, s23) =
      All-split (λ kind. Evidenced scope kind ctx)
        (if first then "approval:rbac_identity" ∷ "approval:mfa_verified" ∷ [] else []) _ h in
    let (s2, s3) =
      All-split (λ kind. Evidenced scope kind ctx)
        (if second then "gate_verdict:HUMAN_DECIDED" ∷ [] else []) _ s23 in
    let demanded =
      assemble mfa (contains d.gate_class human_only_gates) ctx ready
        (if-Has third _ ctx s3 lawful.allowed).0
        (λ e. if-Has first _ ctx s1 (ground (arith, lawful.approved e)))
        (λ e. if-Has second _ ctx s2 (lawful.human e)) in
    rw (gate, lawful.named)
      ((pass_if_all-accepted ctx scope (kinds_2_4 d.gate_class)
          (" (2.4, gate=" +++ d.gate_class +++ ")")).1
        demanded)
