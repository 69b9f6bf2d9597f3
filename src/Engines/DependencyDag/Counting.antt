-- ===== src/Engines/DependencyDag/Counting.antt =====
-- engines/dependency_dag.py: what a pass over the successors and a sorting of the frontier leave, counted.
use network.Prelude.{
  ℕ, ◌+◌, ◌-◌, ◌≤◌, ◌≡◌, refl, Bool, true, not, List, [], ◌∷◌, String, str_eq, arith, eq_iff,
  contains, length, count, count-append, length-append, ◌==◌, if◌then◌else◌, Bool-cases, inl, inr,
}
use network.Prelude.Order.{sorted, count-sorted, length-sorted}
use network.Engines.DependencyDag.{Indegree, lowered_at, release, keep, by_frontier}

-- One for a counter above zero.
abbrev pub pos : ℕ → ℕ
pos n = if n == 0 then 0 else 1

count-keep :
    (test : String → Bool) (s : String) (xs : List String)
    → count s (keep test xs) + count s (keep (λ x. not (test x)) xs) ≡ count s xs
unfolding keep
count-keep test s [] = refl
count-keep test s (x ∷ xs) = ground (arith, count-keep test s xs)

length-keep :
    (test : String → Bool) (xs : List String)
    → length (keep test xs) + length (keep (λ x. not (test x)) xs) ≡ length xs
unfolding keep
length-keep test [] = refl
length-keep test (x ∷ xs) = ground (arith, length-keep test xs)

-- The frontier is sorted without loss.
pub count-by_frontier :
    (mgmt : List String) (s : String) (xs : List String)
    → count s (by_frontier mgmt xs) ≡ count s xs
unfolding by_frontier
count-by_frontier mgmt s xs =
    let test = λ (x : String). contains x mgmt in
    let other = λ (x : String). not (contains x mgmt) in
    omega (
      arith,
      count-append s (sorted (keep test xs)) (sorted (keep other xs)),
      count-sorted s (keep test xs),
      count-sorted s (keep other xs),
      count-keep test s xs,
    )

pub length-by_frontier :
    (mgmt : List String) (xs : List String) → length (by_frontier mgmt xs) ≡ length xs
unfolding by_frontier
length-by_frontier mgmt xs =
    let test = λ (x : String). contains x mgmt in
    let other = λ (x : String). not (contains x mgmt) in
    omega (
      arith,
      length-append (sorted (keep test xs)) (sorted (keep other xs)),
      length-sorted (keep test xs),
      length-sorted (keep other xs),
      length-keep test xs,
    )

-- What is released had a counter above zero, and has none now.
pub count-release :
    (s : String) (vs : List String) (indeg : Indegree)
    → count s (release vs indeg).0 + pos ((release vs indeg).1 s) ≡ pos (indeg s)
unfolding release
count-release s [] indeg = omega arith
count-release s (v ∷ vs) indeg =
    ground (arith, count-release s vs (lowered_at v indeg), eq_iff s v, eq_iff v s)

-- Each counter falls by as often as its node stands among the successors.
pub release-indegree :
    (s : String) (vs : List String) (indeg : Indegree)
    → (release vs indeg).1 s ≡ indeg s - count s vs
unfolding release
release-indegree s [] indeg = omega arith
release-indegree s (v ∷ vs) indeg =
    ground (arith, release-indegree s vs (lowered_at v indeg), eq_iff s v, eq_iff v s)

-- Only successors are released.
pub count-release_le :
    (s : String) (vs : List String) (indeg : Indegree) → count s (release vs indeg).0 ≤ count s vs
unfolding release
count-release_le s [] indeg = omega arith
count-release_le s (v ∷ vs) indeg = ground (arith, count-release_le s vs (lowered_at v indeg))

-- How many nodes have a counter above zero.
abbrev pub positives : List String → Indegree → ℕ
positives [] indeg = 0
positives (n ∷ ns) indeg = pos (indeg n) + positives ns indeg

positives-lowered :
    (v : String) (ns : List String) (indeg : Indegree)
    → positives ns (lowered_at v indeg) ≤ positives ns indeg
positives-lowered v [] indeg = omega arith
positives-lowered v (n ∷ ns) indeg = ground (arith, positives-lowered v ns indeg)

positives-lowered_one :
    (v : String) (ns : List String) (indeg : Indegree)
    → contains v ns ≡ true
    → (indeg v == 1) ≡ true
    → positives ns (lowered_at v indeg) + 1 ≤ positives ns indeg
unfolding contains
positives-lowered_one v [] indeg h k = absurd (cc)
positives-lowered_one v (n ∷ ns) indeg h k = elim (Bool-cases (str_eq v n)) [
  | inl y ↦
      let same : v ≡ n = (eq_iff v n).0 y in
      ground (arith, y, same, positives-lowered v ns indeg, eq_iff v n)
  | inr other ↦ ground (arith, other, positives-lowered_one v ns indeg)
]

-- What is released no longer counts as blocked.
pub release-positives :
    (ns vs : List String) (indeg : Indegree)
    → ((v : String) → contains v vs ≡ true → contains v ns ≡ true)
    → length (release vs indeg).0 + positives ns (release vs indeg).1 ≤ positives ns indeg
unfolding release contains
release-positives ns [] indeg h = omega arith
release-positives ns (v ∷ vs) indeg h =
    let rest = release-positives ns vs (lowered_at v indeg) (λ w k. h w (ground (arith, k))) in
    elim (Bool-cases (indeg v == 1)) [
      | inl y ↦
          ground
            (arith, rest, y, positives-lowered_one v ns indeg (h v (ground (arith, eq_iff v v))) y)
      | inr n ↦ ground (arith, rest, n, positives-lowered v ns indeg)
    ]
