-- ===== src/Fsm/Evidence/Laws.antt =====
-- fsm/evidence.py against an independent reading: which evidence there is.
use network.Prelude.{
  ◌≡◌, refl, ◌≢◌, ◌↔◌, inl, inr, true, false, Option, none, some, List, [], ◌∷◌, Memᴰ, String,
  eq_iff, arith, is_empty, Bool-cases, All,
}
use network.Fsm.Evidence.{
  Item, Ctx, text_or, is_text, ev, matches, matching_ids, evidence_of, missing_kinds, has_kinds,
  pass_if_any, pass_if_all,
}

-- The item is evidence of the kind in the scope, in good status, with an id.
pub record Backs (scope kind : String) (i : Item) : Type 0 where
  pub in_scope : i.scope ≡ some scope
  pub of_kind : i.kind ≡ some kind
  pub in_order : text_or i.status "OK" ≡ "OK"
  pub has_id : text_or i.evidence_id "" ≢ ""

abbrev pub Evidenced : String → String → Ctx → Type 0
Evidenced scope kind ctx = (i : Item) × Memᴰ i ctx.evidence × Backs scope kind i

is_text-eq : (o : Option String) (s : String) → is_text o s ≡ true → o ≡ some s
is_text-eq none s h = cc
is_text-eq (some t) s h = ground (arith, eq_iff t s)

matches-Backs :
    (scope kind : String) (i : Item) → matches scope "OK" (some kind) i ≡ true → Backs scope kind i
unfolding matches
matches-Backs scope kind i h = record {
  in_scope = is_text-eq i.scope scope (ground arith);
  of_kind = is_text-eq i.kind kind (ground arith);
  in_order = (eq_iff _ _).0 (ground arith);
  has_id = λ e. ground (arith, eq_iff (text_or i.evidence_id "") "");
}

Backs-matches :
    (scope kind : String) (i : Item) → Backs scope kind i → matches scope "OK" (some kind) i ≡ true
unfolding matches
Backs-matches scope kind i b =
    rw (b.in_scope, b.of_kind, b.in_order)
      (ground (
        arith,
        eq_iff scope scope,
        eq_iff kind kind,
        eq_iff (text_or i.evidence_id "") "",
        b.has_id,
      ))

matching_ids-ne_nil :
    (scope kind : String) (is : List Item) (i : Item)
    → Memᴰ i is
    → Backs scope kind i
    → matching_ids scope "OK" (some kind) is ≢ []
unfolding matching_ids
matching_ids-ne_nil scope kind [] i m b h = elim m [ ]
matching_ids-ne_nil scope kind (x ∷ is) i (Memᴰ.head e) b h =
    ground (arith, Backs-matches scope kind x (rw (← e) b))
matching_ids-ne_nil scope kind (x ∷ is) i (Memᴰ.tail m) b h =
    ground (arith, matching_ids-ne_nil scope kind is i m b)

matching_ids-Backs :
    (scope kind : String) (is : List Item)
    → matching_ids scope "OK" (some kind) is ≢ []
    → (i : Item) × Memᴰ i is × Backs scope kind i
unfolding matching_ids
matching_ids-Backs scope kind [] h = absurd (h refl)
matching_ids-Backs scope kind (x ∷ is) h = elim (Bool-cases (matches scope "OK" (some kind) x)) [
  | inl e ↦ (x, Memᴰ.head refl, matches-Backs scope kind x e)
  | inr e ↦
      let (i, m, b) = matching_ids-Backs scope kind is (λ z. h (ground arith)) in
      (i, Memᴰ.tail m, b)
]

-- `has_evidence` with the default status finds ids exactly if the context has an item of the scope
-- and the kind, with status OK or none, and with an id.
pub has_evidence-ne_nil :
    (ctx : Ctx) (scope kind : String) → (evidence_of ctx scope kind ≢ []) ↔ Evidenced scope kind ctx
unfolding evidence_of
has_evidence-ne_nil ctx scope kind = (
  matching_ids-Backs scope kind ctx.evidence,
  λ (i, m, b). matching_ids-ne_nil scope kind ctx.evidence i m b,
)

pub Evidenced-of_filled :
    (ctx : Ctx) (scope kind : String)
    → is_empty (evidence_of ctx scope kind) ≡ false
    → Evidenced scope kind ctx
Evidenced-of_filled ctx scope kind h = (has_evidence-ne_nil ctx scope kind).0 (λ e. ground arith)

-- Every kind of the list is evidenced.
abbrev pub AllEvidenced : String → List String → Ctx → Type 0
AllEvidenced scope kinds ctx = All (λ kind. Evidenced scope kind ctx) kinds

missing_kinds-nil :
    (ctx : Ctx) (scope : String) (kinds : List String)
    → missing_kinds ctx scope kinds ≡ []
    → AllEvidenced scope kinds ctx
unfolding missing_kinds
missing_kinds-nil ctx scope [] h = tt
missing_kinds-nil ctx scope (k ∷ ks) h = (
  (has_evidence-ne_nil ctx scope k).0 (λ e. ground arith),
  missing_kinds-nil ctx scope ks (ground arith),
)

nil-missing_kinds :
    (ctx : Ctx) (scope : String) (kinds : List String)
    → AllEvidenced scope kinds ctx
    → missing_kinds ctx scope kinds ≡ []
unfolding missing_kinds
nil-missing_kinds ctx scope [] h = refl
nil-missing_kinds ctx scope (k ∷ ks) h =
    ground (arith, (has_evidence-ne_nil ctx scope k).1 h.0, nil-missing_kinds ctx scope ks h.1)

-- `has_kinds` reports no missing kind exactly if the context has such an item for every kind.
pub has_kinds-nil :
    (ctx : Ctx) (scope : String) (kinds : List String)
    → ((has_kinds ctx scope kinds).1 ≡ []) ↔ AllEvidenced scope kinds ctx
unfolding has_kinds
has_kinds-nil ctx scope kinds =
    (missing_kinds-nil ctx scope kinds, nil-missing_kinds ctx scope kinds)

-- A guard that wants one kind accepts exactly if it is evidenced.
pub pass_if_any-accepted :
    (ctx : Ctx) (scope kind what : String)
    → ((pass_if_any (evidence_of ctx scope kind) what).accepted ≡ true) ↔ Evidenced scope kind ctx
unfolding pass_if_any
pass_if_any-accepted ctx scope kind what = (
  λ h. (has_evidence-ne_nil ctx scope kind).0 (λ e. ground arith),
  λ v. ground (arith, (has_evidence-ne_nil ctx scope kind).1 v),
)

-- A guard that wants several accepts exactly if each is evidenced.
pub pass_if_all-accepted :
    (ctx : Ctx) (scope : String) (kinds : List String) (suffix : String)
    → ((pass_if_all ctx scope kinds suffix).accepted ≡ true) ↔ AllEvidenced scope kinds ctx
unfolding pass_if_all
pass_if_all-accepted ctx scope kinds suffix = (
  λ h. missing_kinds-nil ctx scope kinds (ground arith),
  λ v. ground (arith, nil-missing_kinds ctx scope kinds v),
)

-- An item that an engine builds is evidence, if its id is not empty.
pub ev-Backs : (s kind eid : String) → eid ≢ "" → Backs s kind (ev s kind eid)
unfolding ev
ev-Backs s kind eid h = record { in_scope = refl; of_kind = refl; in_order = refl; has_id = h }
