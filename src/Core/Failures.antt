-- ===== src/Core/Failures.antt =====
-- core/failures.py: the failure vocabulary, and what any method of the program can raise.
use network.Prelude.{
  ℕ, ◌<◌, ◌≤◌, ◌≡◌, refl, ◌⊎◌, inl, inr, ◌≢◌, Bool, true, false, not, ◌&&◌, Option, none, some,
  List, [], ◌∷◌, String, arith, ltb, leb, if◌then◌else◌, is_empty,
}

pub data FailureClass : Type 0 where
  retryable blocked_class rolled_back partial manual_required fatal : FailureClass

-- `count` and `total` are natural numbers: no caller passes a negative one.
pub record Failure : Type 0 where
  pub cls : FailureClass
  pub causes : List String
  pub count : ℕ
  pub total : ℕ
  pub evidence_ids : List String
  pub retry_hint : Option String

-- The exceptions of the modelled code. `gate_failed` is the `AssertionError` of the release gate
-- with its dict, `validation_error` that of a record model, `ledger_error` that of a recorder.
pub data Error : Type 0 where
  failed : Failure → Error
  value_error : String → Error
  key_error : String → Error
  gate_failed : List (String × ℕ) → Error
  validation_error : Error
  ledger_error : Error

-- A call of a method: it raises, or returns.
pub data Result {ℓ} (Value : Type ℓ) : Type ℓ where
  err : Error → Result Value
  ok : Value → Result Value

module _ {ℓ κ} {X : Type ℓ} {Y : Type κ} where
  infixl 5 ◌>>=◌
  abbrev pub ◌>>=◌ : Result X → (X → Result Y) → Result Y
  err raised >>= next = err raised
  ok x >>= next = next x

  -- Inversion of a call that returns.
  pub >>=-eq-ok :
      (call : Result X) (next : X → Result Y) {y : Y}
      → (call >>= next) ≡ ok y
      → (x : X) × (call ≡ ok x) × (next x ≡ ok y)
  >>=-eq-ok (err raised) next h = cc
  >>=-eq-ok (ok x) next h = (x, refl, h)

infixl 5 ◌>>◌
abbrev pub ◌>>◌ {κ} : {Y : Type κ} → Result (Unit {0}) → Result Y → Result Y
first >> second = first >>= λ done. second

pub Result-cases {ℓ} :
    {X : Type ℓ} (call : Result X)
    → ((x : X) × (call ≡ ok x)) ⊎ ((raised : Error) × (call ≡ err raised))
Result-cases (err raised) = inr (raised, refl)
Result-cases (ok x) = inl (x, refl)

abbrev pub is_retryable : FailureClass → Bool
is_retryable retryable = true
is_retryable _ = false

abbrev pub is_partial : FailureClass → Bool
is_partial partial = true
is_partial _ = false

abbrev pub is_some {ℓ} : {A : Type ℓ} → Option A → Bool
is_some none = false
is_some (some a) = true

-- `Failure.__init__`
unfoldable pub failure :
    FailureClass → List String → ℕ → ℕ → List String → Option String → Result Failure
failure cls causes count total ids hint =
    if is_empty causes
    then err (value_error "Failure without causes violates L03/T4")
    else if is_some hint && not (is_retryable cls)
    then err (value_error "retry_hint is only valid for RETRYABLE failures")
    else if is_partial cls && not (ltb 0 count && leb count total)
    then err (value_error "PARTIAL failure requires 0 < count <= total (T4)")
    else ok (record {
      cls = cls;
      causes = causes;
      count = count;
      total = total;
      evidence_ids = ids;
      retry_hint = hint;
    })

-- `blocked`
unfoldable pub blocked : List String → List String → Result Failure
unfolding failure
blocked causes ids = failure blocked_class causes 0 0 ids none

-- `raise Failure(cls=FailureClass.BLOCKED, causes=(cause,))`
abbrev pub raise_blocked {ℓ} : {A : Type ℓ} → String → Result A
raise_blocked cause = err (
    failed (record {
      cls = blocked_class;
      causes = cause ∷ [];
      count = 0;
      total = 0;
      evidence_ids = [];
      retry_hint = none;
    }))

-- What the docstring of `Failure` promises of its attributes.
pub record IsWellFormed (f : Failure) : Type 0 where
  pub caused : f.causes ≢ []
  pub hinted : is_some f.retry_hint ≡ true → f.cls ≡ retryable
  pub counted : f.cls ≡ partial → (0 < f.count) × (f.count ≤ f.total)

abbrev pub fields : Failure → Result Failure
fields f = failure f.cls f.causes f.count f.total f.evidence_ids f.retry_hint

-- Every failure that can be constructed has a cause, a retry hint only if it is RETRYABLE, and as
-- PARTIAL a count with 0 < count ≤ total.
pub failure-IsWellFormed :
    (cls : FailureClass) (causes : List String) (count total : ℕ) (ids : List String)
    (hint : Option String) {f : Failure}
    → failure cls causes count total ids hint ≡ ok f
    → IsWellFormed f
unfolding failure
failure-IsWellFormed cls causes count total ids hint h = record {
  caused = ground arith;
  hinted = ground arith;
  counted = ground arith;
}

-- Construction loses nothing, and refuses no well-formed failure.
pub failure-of_IsWellFormed : (f : Failure) → IsWellFormed f → fields f ≡ ok f
unfolding failure
failure-of_IsWellFormed f h = ground (arith, h.hinted, h.counted)
