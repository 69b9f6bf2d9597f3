-- ===== src/Fsm/Evidence.antt =====
-- fsm/evidence.py: evidence items and the helpers that guards read them with.
pub mod Laws
use network.Prelude.{
  ◌≡◌, Bool, true, false, not, ◌&&◌, Option, none, some, List, [], ◌∷◌, ◌++◌, String, str_eq,
  is_empty, if◌then◌else◌, is_filled, ◌+++◌,
}
use network.Core.Failures.{FailureClass, blocked_class}

-- An evidence dict: each key is absent or holds a text. Keys that no guard reads are left out.
pub record Item : Type 0 where
  pub scope : Option String
  pub kind : Option String
  pub evidence_id : Option String
  pub status : Option String

-- A guard context, `ctx.get("evidence", [])` and `str(ctx.get("gate_class", ""))`.
pub record Ctx : Type 0 where
  pub evidence : List Item
  pub gate_class : String

-- `GuardOutcome` of fsm/runtime.py, its two constructors and what a guard call comes to.
pub record GuardOutcome : Type 0 where
  pub accepted : Bool
  pub evidence_ids : List String
  pub reason : String
  pub failure_class : Option FailureClass

unfoldable pub pass_with : List String → GuardOutcome
pass_with ids = record { accepted = true; evidence_ids = ids; reason = ""; failure_class = none }

unfoldable pub deny : String → GuardOutcome
deny reason = record {
  accepted = false;
  evidence_ids = [];
  reason = reason;
  failure_class = some blocked_class;
}

-- A guard returns, or raises an exception with this `repr`.
pub data Guarded : Type 0 where
  returned : GuardOutcome → Guarded
  crashed : String → Guarded

abbrev pub Guard : Type 0
Guard = Ctx → Guarded

-- `item.get(key) == text`
abbrev pub is_text : Option String → String → Bool
is_text none s = false
is_text (some t) s = str_eq t s

-- `item.get(key, default)`
abbrev pub text_or : Option String → String → String
text_or none d = d
text_or (some t) d = t

-- `kind is not None and item.get("kind") != kind` lets the item pass
abbrev pub kind_fits : Item → Option String → Bool
kind_fits i none = true
kind_fits i (some k) = is_text i.kind k

unfoldable pub matches : String → String → Option String → Item → Bool
matches scope status kind i =
    is_text i.scope scope
    && str_eq (text_or i.status "OK") status
    && kind_fits i kind
    && is_filled (text_or i.evidence_id "")

matching_ids : String → String → Option String → List Item → List String
matching_ids scope status kind [] = []
matching_ids scope status kind (i ∷ is) =
    let rest = matching_ids scope status kind is in
    if matches scope status kind i then text_or i.evidence_id "" ∷ rest else rest

unfoldable pub has_evidence : Ctx → String → String → Option String → List String
unfolding matching_ids matches
has_evidence ctx scope status kind = matching_ids scope status kind ctx.evidence

-- `has_evidence(ctx, scope, kind=kind)`
unfoldable pub evidence_of : Ctx → String → String → List String
unfolding has_evidence
evidence_of ctx scope kind = has_evidence ctx scope "OK" (some kind)

-- `found` and `missing` of `has_kinds`
unfoldable pub found_ids : Ctx → String → List String → List String
found_ids ctx scope [] = []
found_ids ctx scope (kind ∷ kinds) = evidence_of ctx scope kind ++ found_ids ctx scope kinds

unfoldable pub missing_kinds : Ctx → String → List String → List String
missing_kinds ctx scope [] = []
missing_kinds ctx scope (kind ∷ kinds) =
    let rest = missing_kinds ctx scope kinds in
    if is_empty (evidence_of ctx scope kind) then kind ∷ rest else rest

unfoldable pub has_kinds : Ctx → String → List String → List String × List String
has_kinds ctx scope kinds = (found_ids ctx scope kinds, missing_kinds ctx scope kinds)

unfoldable pub deny_missing : String → GuardOutcome
unfolding deny
deny_missing what = deny ("MISSING_EVIDENCE: " +++ what)

-- Python's `", ".join(texts)`
unfoldable pub join : String → List String → String
join sep [] = ""
join sep (s ∷ []) = s
join sep (s ∷ t ∷ ts) = s +++ sep +++ join sep (t ∷ ts)

quoted : List String → List String
quoted [] = []
quoted (s ∷ ss) = ("'" +++ s +++ "'") ∷ quoted ss

-- Python's print of a list of texts that hold no quotes
unfoldable pub list_repr : List String → String
unfolding quoted
list_repr ss = "[" +++ join ", " (quoted ss) +++ "]"

-- `ev` and the dicts that the engines build: one item with every key
unfoldable pub ev : String → String → String → Item
ev scope kind eid = record {
  scope = some scope;
  kind = some kind;
  evidence_id = some eid;
  status = some "OK";
}

-- `GuardOutcome.pass_with(*ids) if ids else deny_missing(what)`
unfoldable pub pass_if_any : List String → String → GuardOutcome
unfolding pass_with deny_missing
pass_if_any ids what = if is_empty ids then deny_missing what else pass_with ids

-- `found, missing = has_kinds(...)`, then `pass_with(*found)`, or `deny_missing` of the missing kinds
unfoldable pub pass_if_all : Ctx → String → List String → String → GuardOutcome
unfolding has_kinds pass_with deny_missing
pass_if_all ctx scope kinds suffix =
    let (found, missing) = has_kinds ctx scope kinds in
    if is_empty missing then pass_with found else deny_missing (join ", " missing +++ suffix)
