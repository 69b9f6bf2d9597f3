-- ===== src/Engines/DependencyDag/Order.antt =====
-- engines/dependency_dag.py: Kahn's loop ends, and what it puts out is an order.
use network.Prelude.{
  ℕ, zero, suc, ◌+◌, ◌≤◌, ◌≡◌, refl, sym, ap, ◌∙◌, subst, true, false, ◌||◌, Option, none, some,
  List, [], ◌∷◌, ◌++◌, String, str_eq, arith, eq_iff, contains, length, count, count-append,
  length-append, ◌==◌, if◌then◌else◌, Bool-cases, inl, inr, Option-cases,
}
use network.Prelude.Order.{sorted, count-sorted, contains-sorted}
use network.Engines.DependencyDag.{Successors, Indegree, successors, release, by_frontier, kahn}
use network.Engines.DependencyDag.Counting.{
  pos, positives, count-by_frontier, length-by_frontier, count-release, count-release_le,
  release-indegree, release-positives,
}

-- How many edges lead to a node from nodes that are not done.
abbrev pub missing : String → List String → Successors → ℕ
missing x done [] = 0
missing x done ((u, vs) ∷ table) =
    (if contains u done then 0 else count x vs) + missing x done table

missing-done :
    (x c : String) (done : List String) (table : Successors)
    → missing x (c ∷ done) table ≤ missing x done table
unfolding contains
missing-done x c done [] = omega arith
missing-done x c done ((u, vs) ∷ table) = ground (arith, missing-done x c done table)

-- When a node is done, the edges from it are no longer missing.
missing-step :
    (x c : String) (done : List String) (table : Successors)
    → contains c done ≡ false
    → missing x (c ∷ done) table + count x (successors c table) ≤ missing x done table
unfolding contains successors
missing-step x c done [] h = omega arith
missing-step x c done ((u, vs) ∷ table) h = elim (Bool-cases (str_eq u c)) [
  | inl y ↦
      let same : u ≡ c = (eq_iff u c).0 y in ground (arith, y, same, h, missing-done x c done table)
  | inr n ↦ ground (arith, n, missing-step x c done table h)
]

count-contains : (x : String) (xs : List String) → count x xs ≡ 0 → contains x xs ≡ false
unfolding contains
count-contains x [] h = refl
count-contains x (y ∷ ys) h = ground (arith, count-contains x ys)

-- No node is done, ready or blocked at once, and a counter is not below what is missing.
pub record Kept (table : Successors) (done ready : List String) (indeg : Indegree) : Type 0 where
  pub once : (x : String) → count x done + count x ready + pos (indeg x) ≤ 1
  pub counted : (x : String) → missing x done table ≤ indeg x

at_zero : (n : ℕ) → pos n ≡ 0 → n ≡ 0
at_zero n h = ground arith

pub contains-count : (x : String) (xs : List String) → contains x xs ≡ true → 1 ≤ count x xs
unfolding contains
contains-count x [] h = absurd (cc)
contains-count x (y ∷ ys) h = ground (arith, contains-count x ys)

pub contains-of_count : (x : String) (xs : List String) → 1 ≤ count x xs → contains x xs ≡ true
unfolding contains
contains-of_count x [] h = absurd (omega arith)
contains-of_count x (y ∷ ys) h = ground (arith, contains-of_count x ys)

-- If no edge to a node is missing, then every node with an edge to it is done.
missing-none :
    (x u : String) (done : List String) (table : Successors)
    → missing x done table ≡ 0
    → contains x (successors u table) ≡ true
    → contains u done ≡ true
unfolding successors contains
missing-none x u done [] h k = absurd (cc)
missing-none x u done ((w, vs) ∷ table) h k = elim (Bool-cases (str_eq w u)) [
  | inr n ↦ missing-none x u done table (omega arith) (rw n at k)
  | inl y ↦
      let same : w ≡ u = (eq_iff w u).0 y in
      elim (Bool-cases (contains u done)) [
        | inl found ↦ found
        | inr lost ↦ absurd (ground (arith, same, lost, contains-count x vs (rw y at k)))
      ]
]

result_order : Option (List String × Indegree) → List String
result_order none = []
result_order (some (order, left)) = order

module _ (mgmt : List String) (table : Successors) where
  step-Kept :
      (done ready : List String) (c : String) (indeg : Indegree)
      → Kept table done (c ∷ ready) indeg
      → Kept table
          (c ∷ done)
          (by_frontier mgmt (ready ++ (release (sorted (successors c table)) indeg).0))
          (release (sorted (successors c table)) indeg).1
  step-Kept done ready c indeg k =
      let vs = sorted (successors c table) in
      record {
        once = λ x. omega (
          arith,
          k.once x,
          count-by_frontier mgmt x (ready ++ (release vs indeg).0),
          count-append x ready (release vs indeg).0,
          count-release x vs indeg,
        );
        counted = λ x. omega (
          arith,
          k.counted x,
          release-indegree x vs indeg,
          count-sorted x (successors c table),
          missing-step x c done table
              (count-contains c done (ground (arith, k.once c, eq_iff c c))),
        );
      }

  -- Each node comes when no edge to it is missing.
  pub InOrder : List String → List String → Type 0
  InOrder done [] = Unit {0}
  InOrder done (c ∷ order) = (missing c done table ≡ 0) × InOrder (c ∷ done) order

  pub kahn-InOrder :
      (fuel : ℕ) (done ready : List String) (indeg left : Indegree) (order : List String)
      → Kept table done ready indeg
      → kahn fuel mgmt table ready indeg ≡ some (order, left)
      → InOrder done order × ((x : String) → count x done + count x order ≤ 1)
  unfolding kahn InOrder result_order
  kahn-InOrder fuel done [] indeg left order k h =
      let e : [] ≡ order = cc in
      subst (λ (o : List String). InOrder done o × ((x : String) → count x done + count x o ≤ 1)) e
        (tt, λ x. omega (arith, k.once x))
  kahn-InOrder zero done (c ∷ ready) indeg left order k h = absurd (cc)
  kahn-InOrder (suc fuel) done (c ∷ ready) indeg left order k h =
      let (freed, after) = release (sorted (successors c table)) indeg in
      elim (Option-cases (kahn fuel mgmt table (by_frontier mgmt (ready ++ freed)) after)) [
        | inl out ↦ absurd (cc (rw (out, kahn) at h))
        | inr ((rest, last), found) ↦
            let e : c ∷ rest ≡ order = ap result_order (rw (found, kahn) at h) in
            let (ordered, once) =
              kahn-InOrder fuel (c ∷ done) _ after last rest (step-Kept done ready c indeg k)
                found in
            subst
              (λ (o : List String). InOrder done o × ((x : String) → count x done + count x o ≤ 1))
              e
              (
                (
                  omega (
                    arith,
                    k.counted c,
                    at_zero (indeg c) (ground (arith, k.once c, eq_iff c c)),
                  ),
                  ordered,
                ),
                λ x. omega (arith, once x),
              )
      ]

  -- The fuel is enough where it is at least the frontier and the blocked nodes together.
  pub kahn_total :
      (fuel : ℕ) (nodes ready : List String) (indeg : Indegree)
      → ((u v : String) → contains v (successors u table) ≡ true → contains v nodes ≡ true)
      → length ready + positives nodes indeg ≤ fuel
      → (r : List String × Indegree) × (kahn fuel mgmt table ready indeg ≡ some r)
  unfolding kahn
  kahn_total fuel nodes [] indeg within h = (([], indeg), refl)
  kahn_total zero nodes (c ∷ ready) indeg within h = absurd (omega arith)
  kahn_total (suc fuel) nodes (c ∷ ready) indeg within h =
      let vs = sorted (successors c table) in
      let (freed, after) = release vs indeg in
      let ((rest, left), found) =
        kahn_total fuel nodes (by_frontier mgmt (ready ++ freed)) after within (
          omega (
            arith,
            length-by_frontier mgmt (ready ++ freed),
            length-append ready freed,
            release-positives nodes vs indeg
                (λ v k. within c v (sym (contains-sorted v (successors c table)) ∙ k)),
          )) in
      ((c ∷ rest, left), rw (found, kahn) refl)

  -- A node with an edge to a node that comes in order was done, or came before.
  pub InOrder-before :
      (s d : String) (done before after : List String)
      → InOrder done (before ++ (d ∷ after))
      → contains d (successors s table) ≡ true
      → (contains s before || contains s done) ≡ true
  unfolding InOrder contains
  InOrder-before s d done [] after h k = missing-none d s done table h.0 k
  InOrder-before s d done (b ∷ before) after h k =
      ground (arith, InOrder-before s d (b ∷ done) before after h.1 k)

  step-members :
      (nodes ready vs : List String) (indeg : Indegree)
      → ((x : String) → 1 ≤ count x ready → 1 ≤ count x nodes)
      → ((x : String) → 1 ≤ count x vs → 1 ≤ count x nodes)
      → (x : String) → 1 ≤ count x (by_frontier mgmt (ready ++ (release vs indeg).0))
      → 1 ≤ count x nodes
  step-members nodes ready vs indeg from_ready from_vs x h =
      let sizes = count-by_frontier mgmt x (ready ++ (release vs indeg).0) in
      let parts = count-append x ready (release vs indeg).0 in
      elim (Bool-cases (count x ready == 0)) [
        | inl none_ready ↦
            from_vs x (ground (arith, none_ready, sizes, parts, h, count-release_le x vs indeg))
        | inr some_ready ↦ from_ready x (ground (arith, some_ready))
      ]

  -- Only nodes are put out.
  pub kahn-members :
      (fuel : ℕ) (nodes ready : List String) (indeg left : Indegree) (order : List String)
      → ((x : String) → 1 ≤ count x ready → 1 ≤ count x nodes)
      → ((u x : String) → 1 ≤ count x (successors u table) → 1 ≤ count x nodes)
      → kahn fuel mgmt table ready indeg ≡ some (order, left)
      → (x : String) → 1 ≤ count x order
      → 1 ≤ count x nodes
  unfolding kahn result_order
  kahn-members fuel nodes [] indeg left order r t h x m =
      let e : [] ≡ order = cc in absurd (omega (arith, rw (← e) at m))
  kahn-members zero nodes (c ∷ ready) indeg left order r t h x m = absurd (cc)
  kahn-members (suc fuel) nodes (c ∷ ready) indeg left order r t h x m =
      let vs = sorted (successors c table) in
      let (freed, after) = release vs indeg in
      elim (Option-cases (kahn fuel mgmt table (by_frontier mgmt (ready ++ freed)) after)) [
        | inl out ↦ absurd (cc (rw (out, kahn) at h))
        | inr ((rest, last), found) ↦
            let e : c ∷ rest ≡ order = ap result_order (rw (found, kahn) at h) in
            let later =
              kahn-members fuel nodes (by_frontier mgmt (ready ++ freed)) after last rest
                (step-members nodes ready vs indeg (λ y k. r y (omega (arith, k)))
                  (λ y k. t c y (omega (arith, k, count-sorted y (successors c table)))))
                t found in
            elim (Bool-cases (count x rest == 0)) [
              | inr more ↦ later x (ground (arith, more))
              | inl last_one ↦ r x (ground (arith, last_one, rw (← e) at m))
            ]
      ]
