-- ===== src/Core/Counters/Laws.antt =====
-- core/counters.py: counters only grow, and the release gate reads them all.
use network.Prelude.{
  ◌≡◌, refl, ◌↔◌, ◌≢◌, Option, none, some, List, [], ◌∷◌, ◌++◌, String, str_eq, arith, eq_iff,
  Option-cases, All, if◌then◌else◌, inl, inr,
}
use network.Prelude.Dict.{Dict, lookup, insert, keys, lookup-insert, keys-insert}
use network.Core.Failures.{Result, ok, err, key_error, ◌>>=◌, >>=-eq-ok}
use network.Core.Counters.{
  CounterCollector, increment, non_zero, assert_release_gate, append_reason,
}

-- The reasons kept under a name; none where the name is not registered.
abbrev pub kept : Option (List String) → List String
kept none = []
kept (some rs) = rs

-- An increment succeeds exactly on a registered name.
pub increment_ok :
    (name reason : String) (c : CounterCollector) {rs : List String}
    → lookup name c.values ≡ some rs
    → increment name reason c ≡ ok (record { values = insert name (rs ++ (reason ∷ [])) c.values })
unfolding increment append_reason
increment_ok name reason c h = rw h

pub increment_unknown :
    (name reason : String) (c : CounterCollector)
    → lookup name c.values ≡ none
    → increment name reason c ≡ err (key_error name)
unfolding increment append_reason
increment_unknown name reason c h = rw h

abbrev pub Registered : String → CounterCollector → Type 0
Registered name c = (rs : List String) × (lookup name c.values ≡ some rs)

pub increment-reasons :
    (name reason j : String) (c : CounterCollector) {c' : CounterCollector}
    → increment name reason c ≡ ok c'
    → kept (lookup j c'.values) ≡ (
        if str_eq name j
        then kept (lookup j c.values) ++ (reason ∷ [])
        else kept (lookup j c.values))
unfolding increment append_reason
increment-reasons name reason j c h = elim (Option-cases (lookup name c.values)) [
  | inl e ↦ ground arith
  | inr (rs, e) ↦ ground (arith, lookup-insert name j (rs ++ (reason ∷ [])) c.values, eq_iff name j)
]

pub increment-keys :
    (name reason : String) (c : CounterCollector) {c' : CounterCollector}
    → increment name reason c ≡ ok c'
    → keys c'.values ≡ keys c.values
unfolding increment append_reason
increment-keys name reason c h = elim (Option-cases (lookup name c.values)) [
  | inl e ↦ ground arith
  | inr (rs, e) ↦ ground (arith, keys-insert name (rs ++ (reason ∷ [])) rs c.values e)
]

-- The counter of `name` has at least one reason.
abbrev pub Tripped : String → CounterCollector → Type 0
Tripped name c = kept (lookup name c.values) ≢ []

snoc-ne-nil {ℓ} : {A : Type ℓ} (xs : List A) (x : A) → xs ++ (x ∷ []) ≢ []
snoc-ne-nil [] x h = cc
snoc-ne-nil (y ∷ xs) x h = cc

pub increment-Tripped :
    (name reason : String) (c : CounterCollector) {c' : CounterCollector}
    → increment name reason c ≡ ok c'
    → Tripped name c'
increment-Tripped name reason c h e = ground (
  arith,
  increment-reasons name reason name c h,
  eq_iff name name,
  snoc-ne-nil (kept (lookup name c.values)) reason,
)

pub Tripped-increment :
    (name reason j : String) (c : CounterCollector) {c' : CounterCollector}
    → increment name reason c ≡ ok c'
    → Tripped j c
    → Tripped j c'
Tripped-increment name reason j c h t e =
    ground
      (arith, increment-reasons name reason j c h, t, snoc-ne-nil (kept (lookup j c.values)) reason)

non_zero-nil : (m : Dict (List String)) (j : String) → non_zero m ≡ [] → kept (lookup j m) ≡ []
unfolding non_zero lookup
non_zero-nil [] j h = refl
non_zero-nil ((name, []) ∷ m) j h = ground (arith, non_zero-nil m j)
non_zero-nil ((name, r ∷ rs) ∷ m) j h = cc

All-nil : (m : Dict (List String)) → non_zero m ≡ [] → All (λ e. e.1 ≡ []) m
unfolding non_zero
All-nil [] h = tt
All-nil ((name, []) ∷ m) h = (refl, All-nil m h)
All-nil ((name, r ∷ rs) ∷ m) h = cc

nil-non_zero : (m : Dict (List String)) → All (λ e. e.1 ≡ []) m → non_zero m ≡ []
unfolding non_zero
nil-non_zero [] h = refl
nil-non_zero ((name, rs) ∷ m) h = ground (arith, nil-non_zero m h.1)

-- The gate passes only if no counter has a reason.
pub assert_release_gate-kept :
    (c : CounterCollector) (j : String)
    → assert_release_gate c ≡ ok tt
    → kept (lookup j c.values) ≡ []
unfolding assert_release_gate
assert_release_gate-kept c j h = ground (arith, non_zero-nil c.values j)

-- A list of increments, as the engines make them during a run.
unfoldable pub increments : List (String × String) → CounterCollector → Result CounterCollector
increments [] c = ok c
increments ((name, reason) ∷ rest) c = do d ← increment name reason c; increments rest d

Tripped-increments :
    (es : List (String × String)) (j : String) (c : CounterCollector) {c' : CounterCollector}
    → increments es c ≡ ok c'
    → Tripped j c
    → Tripped j c'
unfolding increments
Tripped-increments [] j c h t = ground (arith, t)
Tripped-increments ((name, reason) ∷ es) j c h t =
    let (d, e, rest) = >>=-eq-ok (increment name reason c) (increments es) h in
    Tripped-increments es j d rest (Tripped-increment name reason j c e t)

pub Tripped-blocks_gate :
    (name : String) (c : CounterCollector) → Tripped name c → assert_release_gate c ≢ ok tt
Tripped-blocks_gate name c t gate = t (assert_release_gate-kept c name gate)

-- Once a counter is incremented, no later increments bring the release gate back: after any list of
-- them that returns, the gate does not pass.
pub increment_blocks_gate :
    (name reason : String) (c : CounterCollector) (es : List (String × String))
    {d c' : CounterCollector}
    → increment name reason c ≡ ok d
    → increments es d ≡ ok c'
    → assert_release_gate c' ≢ ok tt
increment_blocks_gate name reason c es {d} {c'} h hs gate =
    Tripped-increments es name d hs (increment-Tripped name reason c h)
      (assert_release_gate-kept c' name gate)

-- The release gate passes exactly if every counter is zero.
pub assert_release_gate_iff :
    (c : CounterCollector) → (assert_release_gate c ≡ ok tt) ↔ All (λ e. e.1 ≡ []) c.values
unfolding assert_release_gate
assert_release_gate_iff c =
    (λ h. All-nil c.values (ground arith), λ h. rw (nil-non_zero c.values h))
