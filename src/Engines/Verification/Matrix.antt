-- ===== src/Engines/Verification/Matrix.antt =====
-- engines/verification.py: the matrix that `derive` makes covers every pair of zones.
use network.Prelude.{
  ℕ, suc, ◌+◌, ◌*◌, ◌≤◌, ◌≡◌, refl, inl, inr, true, List, [], ◌∷◌, ◌++◌, Memᴰ, String, arith, ltb,
  length, eq_iff, and-left, and-right, Bool-cases, if◌then◌else◌, All, All-mem,
}
use network.Core.Failures.{ok, ◌>>=◌, >>=-eq-ok}
use network.Engines.Verification.Zones.{zone-named}
use network.Engines.Verification.{
  PolicyRule, Zone, NetworkIntent, TestSpec, kind_of, is_between, rules_between, least, spec_of,
  pair_spec, row, rows, service_specs, zone_names, derive,
}

-- A rule for the pair that no rule for the pair precedes.
pub record Effective (rules : List PolicyRule) (src dst : String) (r : PolicyRule) : Type 0 where
  pub listed : Memᴰ r rules
  pub between : (r.src_zone ≡ src) × (r.dst_zone ≡ dst)
  pub first :
      (x : PolicyRule)
      → Memᴰ x rules
      → x.src_zone ≡ src
      → x.dst_zone ≡ dst
      → r.precedence ≤ x.precedence

-- The test of a pair: what its effective rule does is expected.
abbrev pub Tests : List PolicyRule → String → String → TestSpec → Type 0
Tests rules src dst s =
    (s.src_zone ≡ src)
    × (s.dst_zone ≡ dst)
    × ((r : PolicyRule) × Effective rules src dst r × (s.kind ≡ kind_of r.action))

mem-append_left {ℓ} : {A : Type ℓ} (x : A) (xs ys : List A) → Memᴰ x xs → Memᴰ x (xs ++ ys)
mem-append_left x [] ys m = elim m [ ]
mem-append_left x (a ∷ xs) ys (Memᴰ.head e) = Memᴰ.head e
mem-append_left x (a ∷ xs) ys (Memᴰ.tail m) = Memᴰ.tail (mem-append_left x xs ys m)

mem-append_right {ℓ} : {A : Type ℓ} (x : A) (xs ys : List A) → Memᴰ x ys → Memᴰ x (xs ++ ys)
mem-append_right x [] ys m = m
mem-append_right x (a ∷ xs) ys m = Memᴰ.tail (mem-append_right x xs ys m)

skip_second : {r x y : PolicyRule} {xs : List PolicyRule} → Memᴰ y (r ∷ xs) → Memᴰ y (r ∷ x ∷ xs)
skip_second (Memᴰ.head e) = Memᴰ.head e
skip_second (Memᴰ.tail m) = Memᴰ.tail (Memᴰ.tail m)

least-mem : (r : PolicyRule) (rs : List PolicyRule) → Memᴰ (least r rs) (r ∷ rs)
unfolding least
least-mem r [] = Memᴰ.head refl
least-mem r (x ∷ xs) = elim (Bool-cases (ltb x.precedence r.precedence)) [
  | inl e ↦ rw (e, least) (Memᴰ.tail (least-mem x xs))
  | inr e ↦ rw (e, least) (skip_second (least-mem r xs))
]

least-bound :
    (r : PolicyRule) (rs : List PolicyRule)
    → ((least r rs).precedence ≤ r.precedence)
      × All (λ x. (least r rs).precedence ≤ x.precedence) rs
unfolding least
least-bound r [] = (omega arith, tt)
least-bound r (x ∷ xs) =
    let next = if ltb x.precedence r.precedence then x else r in
    let (low, all) = least-bound next xs in (ground arith, (ground arith, all))

rules_between-mem :
    (src dst : String) (rules : List PolicyRule) (r : PolicyRule)
    → Memᴰ r (rules_between src dst rules)
    → Memᴰ r rules × (r.src_zone ≡ src) × (r.dst_zone ≡ dst)
unfolding rules_between
rules_between-mem src dst [] r m = elim m [ ]
rules_between-mem src dst (x ∷ xs) r m = elim (Bool-cases (is_between src dst x)) [
  | inr e ↦
      let (n, f, g) = rules_between-mem src dst xs r (rw (e, rules_between) at m) in
      (Memᴰ.tail n, f, g)
  | inl e ↦ elim (rw (e, rules_between) at m) [
    | Memᴰ.head same ↦ rw same (
      Memᴰ.head refl,
      (eq_iff x.src_zone src).0 (and-left _ _ e),
      (eq_iff x.dst_zone dst).0 (and-right _ _ e),
    )
    | Memᴰ.tail n ↦ let (k, f, g) = rules_between-mem src dst xs r n in (Memᴰ.tail k, f, g)
  ]
]

mem-rules_between :
    (src dst : String) (rules : List PolicyRule) (r : PolicyRule)
    → Memᴰ r rules
    → r.src_zone ≡ src
    → r.dst_zone ≡ dst
    → Memᴰ r (rules_between src dst rules)
unfolding rules_between
mem-rules_between src dst [] r m f g = elim m [ ]
mem-rules_between src dst (x ∷ xs) r (Memᴰ.head same) f g =
    let hit : is_between src dst x ≡ true =
      rw (← same) (ground (arith, eq_iff r.src_zone src, eq_iff r.dst_zone dst)) in
    rw (hit, rules_between) (Memᴰ.head same)
mem-rules_between src dst (x ∷ xs) r (Memᴰ.tail m) f g = elim (Bool-cases (is_between src dst x)) [
  | inl e ↦ rw (e, rules_between) (Memᴰ.tail (mem-rules_between src dst xs r m f g))
  | inr e ↦ rw (e, rules_between) (mem-rules_between src dst xs r m f g)
]

first_least :
    (rules : List PolicyRule) (src dst : String) (r : PolicyRule) (rs : List PolicyRule)
    → rules_between src dst rules ≡ r ∷ rs
    → Effective rules src dst (least r rs)
first_least rules src dst r rs e =
    let (m, f, g) = rules_between-mem src dst rules (least r rs) (rw e (least-mem r rs)) in
    let (low, all) = least-bound r rs in
    record {
      listed = m;
      between = (f, g);
      first = λ x mx fx gx.
          All-mem (λ y. (least r rs).precedence ≤ y.precedence) (r ∷ rs) (low, all)
            (rw e at (mem-rules_between src dst rules x mx fx gx));
    }

made_of_rules :
    (rules : List PolicyRule) (i : ℕ) (src dst : String) (found : List PolicyRule) {s : TestSpec}
    → rules_between src dst rules ≡ found
    → pair_spec rules i src dst ≡ ok s
    → Tests rules src dst s
unfolding pair_spec spec_of
made_of_rules rules i src dst [] e h = absurd (ground (arith, e))
made_of_rules rules i src dst (r ∷ rs) {s} e h =
    let made : s ≡ spec_of i src dst (least r rs) = ground (arith, e) in
    rw made (refl, refl, (least r rs, first_least rules src dst r rs e, refl))

pair_spec-Tests :
    (rules : List PolicyRule) (i : ℕ) (src dst : String) {s : TestSpec}
    → pair_spec rules i src dst ≡ ok s
    → Tests rules src dst s
pair_spec-Tests rules i src dst h =
    made_of_rules rules i src dst (rules_between src dst rules) refl h

-- Some test of the list is the test of the pair.
abbrev pub Covers : List PolicyRule → String → String → List TestSpec → Type 0
Covers rules src dst specs = (s : TestSpec) × Memᴰ s specs × Tests rules src dst s

row-Covers :
    (rules : List PolicyRule) (i : ℕ) (src dst : String) (dsts : List String)
    {specs : List TestSpec}
    → row rules i src dsts ≡ ok specs
    → Memᴰ dst dsts
    → Covers rules src dst specs
unfolding row
row-Covers rules i src dst [] h m = elim m [ ]
row-Covers rules i src dst (d ∷ ds) {specs} h m =
    let (s, made, h2) =
      >>=-eq-ok (pair_spec rules i src d) (λ s. row rules (suc i) src ds >>= λ rest. ok (s ∷ rest))
        {y = specs} h in
    let (rest, more, all) =
      >>=-eq-ok (row rules (suc i) src ds) (λ rest. ok (s ∷ rest)) {y = specs} h2 in
    let same : specs ≡ s ∷ rest = ground arith in
    elim m [
      | Memᴰ.head e ↦ rw (same, e) (s, Memᴰ.head refl, pair_spec-Tests rules i src d made)
      | Memᴰ.tail n ↦
          let (x, mx, t) = row-Covers rules (suc i) src dst ds {specs = rest} more n in
          rw same (x, Memᴰ.tail mx, t)
    ]

rows-Covers :
    (rules : List PolicyRule) (i : ℕ) (names : List String) (src dst : String) (srcs : List String)
    {specs : List TestSpec}
    → rows rules i names srcs ≡ ok specs
    → Memᴰ src srcs
    → Memᴰ dst names
    → Covers rules src dst specs
unfolding rows
rows-Covers rules i names src dst [] h m n = elim m [ ]
rows-Covers rules i names src dst (a ∷ more_srcs) {specs} h m n =
    let (r, made, h2) =
      >>=-eq-ok (row rules i a names)
        (λ r. rows rules (i + length names) names more_srcs >>= λ rest. ok (r ++ rest)) {y = specs}
        h in
    let (rest, more, all) =
      >>=-eq-ok (rows rules (i + length names) names more_srcs) (λ rest. ok (r ++ rest)) {y = specs}
        h2 in
    let same : specs ≡ r ++ rest = ground arith in
    elim m [
      | Memᴰ.head e ↦
          let (x, mx, t) = row-Covers rules i a dst names {specs = r} made n in
          rw (same, e) (x, mem-append_left x r rest mx, t)
      | Memᴰ.tail k ↦
          let (x, mx, t) =
            rows-Covers rules (i + length names) names src dst more_srcs {specs = rest} more k n in
          rw same (x, mem-append_right x r rest mx, t)
    ]

named-Covers :
    (intent : NetworkIntent) (src dst : String) {specs : List TestSpec}
    → derive intent ≡ ok specs
    → Memᴰ src (zone_names intent)
    → Memᴰ dst (zone_names intent)
    → Covers intent.rules src dst specs
unfolding derive
named-Covers intent src dst {specs} h m n =
    let names = zone_names intent in
    let services = service_specs (length names * length names) intent.required_services in
    let (matrix, made, all) =
      >>=-eq-ok (rows intent.rules 0 names names) (λ matrix. ok (matrix ++ services)) {y = specs}
        h in
    let (x, mx, t) = rows-Covers intent.rules 0 names src dst names {specs = matrix} made m n in
    let same : specs ≡ matrix ++ services = ground arith in
    rw same (x, mem-append_left x matrix services mx, t)

-- A matrix that `derive` returns has, for every two zones of the intent, equal ones included, a test
-- from the one to the other of the connectivity that the rule of least precedence for the pair
-- demands.
pub derive-Covers :
    (intent : NetworkIntent) (src dst : Zone) {specs : List TestSpec}
    → derive intent ≡ ok specs
    → Memᴰ src intent.zones
    → Memᴰ dst intent.zones
    → Covers intent.rules src.name dst.name specs
derive-Covers intent src dst {specs} h m n =
    named-Covers intent src.name dst.name {specs = specs} h (zone-named intent src m)
      (zone-named intent dst n)
