-- ===== src/Engines/DependencyDag/Total.antt =====
-- engines/dependency_dag.py: `_topological` ends with a total order of the nodes, or with a cycle.
use network.Prelude.{
  ◌+◌, ◌≤◌, ◌≡◌, refl, sym, ap, ◌∙◌, true, false, Option, some, List, [], ◌∷◌, ◌++◌, Memᴰ, String,
  str_eq, arith, eq_iff, contains, length, count, ◌==◌, Bool-cases, Option-cases, inl, inr,
}
use network.Prelude.Order.{sorted, count-sorted, length-sorted, contains-sorted}
use network.Core.Failures.{Result, ok}
use network.Engines.ConfigIr.{IrNode}
use network.Engines.DependencyDag.{
  DagEdge, Successors, Indegree, successors, no_successors, linked, keep, ids_of, mgmt_of, kahn,
  by_frontier, checked_order, topological,
}
use network.Engines.DependencyDag.Counting.{pos, positives, count-by_frontier, length-by_frontier}
use network.Engines.DependencyDag.Order.{
  Kept, InOrder, kahn-InOrder, kahn_total, kahn-members, contains-count, contains-of_count,
  InOrder-before,
}
use network.Engines.DependencyDag.Links.{Built, no_successors-Built, linked-Built, linked-adds}

-- At the start: a node is ready exactly if its counter is zero.
length-ready :
    (nodes : List String) (indeg : Indegree)
    → length (keep (λ n. indeg n == 0) nodes) + positives nodes indeg ≡ length nodes
unfolding keep
length-ready [] indeg = refl
length-ready (n ∷ ns) indeg = ground (arith, length-ready ns indeg)

count-keep-le :
    (x : String) (nodes : List String) (indeg : Indegree)
    → count x (keep (λ n. indeg n == 0) nodes) ≤ count x nodes
unfolding keep
count-keep-le x [] indeg = omega arith
count-keep-le x (n ∷ ns) indeg = ground (arith, count-keep-le x ns indeg)

blocked-count :
    (x : String) (nodes : List String) (indeg : Indegree)
    → (indeg x == 0) ≡ false
    → count x (keep (λ n. indeg n == 0) nodes) ≡ 0
unfolding keep
blocked-count x [] indeg h = refl
blocked-count x (n ∷ ns) indeg h = elim (Bool-cases (str_eq x n)) [
  | inl y ↦
      let same : x ≡ n = (eq_iff x n).0 y in ground (arith, same, h, blocked-count x ns indeg h)
  | inr other ↦ ground (arith, other, blocked-count x ns indeg h)
]

count-ready :
    (x : String) (nodes : List String) (indeg : Indegree)
    → count x nodes ≤ 1
    → count x (keep (λ n. indeg n == 0) nodes) + pos (indeg x) ≤ 1
count-ready x nodes indeg h = elim (Bool-cases (indeg x == 0)) [
  | inl y ↦ ground (arith, y, count-keep-le x nodes indeg)
  | inr n ↦ ground (arith, n, blocked-count x nodes indeg n)
]

abbrev nodes_of : List IrNode → List String
nodes_of ns = sorted (ids_of ns)

abbrev table_of : List IrNode → List DagEdge → Successors
table_of ns edges = (linked (nodes_of ns) edges (no_successors (nodes_of ns)) (λ x. 0)).0

abbrev indegree_of : List IrNode → List DagEdge → Indegree
indegree_of ns edges = (linked (nodes_of ns) edges (no_successors (nodes_of ns)) (λ x. 0)).1

abbrev frontier_of : List IrNode → List DagEdge → List String
frontier_of ns edges =
    by_frontier (mgmt_of ns) (keep (λ n. indegree_of ns edges n == 0) (nodes_of ns))

graph-Built :
    (ns : List IrNode) (edges : List DagEdge)
    → Built (nodes_of ns) (table_of ns edges) (indegree_of ns edges)
graph-Built ns edges =
    linked-Built (nodes_of ns) edges (no_successors (nodes_of ns)) (λ x. 0)
      (no_successors-Built (nodes_of ns))

-- The loop over the frontier ends for any nodes and edges, cyclic ones included.
pub topological_checked :
    (ns : List IrNode) (edges : List DagEdge)
    → (out : List String × Indegree) × (topological ns edges
        ≡ some (checked_order (sorted (ids_of ns)) out))
unfolding topological
topological_checked ns edges =
    let (out, found) =
      kahn_total (mgmt_of ns) (table_of ns edges) (length (nodes_of ns)) (nodes_of ns)
        (frontier_of ns edges) (indegree_of ns edges) (graph-Built ns edges).within
        (omega (
          arith,
          length-by_frontier (mgmt_of ns) (keep (λ n. indegree_of ns edges n == 0) (nodes_of ns)),
          length-ready (nodes_of ns) (indegree_of ns edges),
        )) in
    (out, rw (found, topological) refl)

-- An order of the nodes of a change: only nodes, none twice, as many as there are nodes, and each
-- behind all that an edge puts before it.
pub record IsOrder (ns : List IrNode) (edges : List DagEdge) (order : List String) : Type 0 where
  pub once : (x : String) → count x order ≤ 1
  pub total : length order ≡ length (ids_of ns)
  pub members : (x : String) → contains x order ≡ true → contains x (ids_of ns) ≡ true
  pub before :
      (e : DagEdge) (earlier later : List String)
      → Memᴰ e edges
      → contains e.src (ids_of ns) ≡ true
      → contains e.dst (ids_of ns) ≡ true
      → order ≡ earlier ++ (e.dst ∷ later)
      → contains e.src earlier ≡ true

ordered : Option (Result (List String)) → List String
ordered (some (ok order)) = order
ordered _ = []

module _ (ns : List IrNode) (edges : List DagEdge)
    (distinct : (x : String) → count x (ids_of ns) ≤ 1) where
  frontier-Kept : Kept (table_of ns edges) [] (frontier_of ns edges) (indegree_of ns edges)
  frontier-Kept = record {
    once = λ x. omega (
      arith,
      count-by_frontier (mgmt_of ns) x (keep (λ n. indegree_of ns edges n == 0) (nodes_of ns)),
      count-ready x (nodes_of ns) (indegree_of ns edges)
          (omega (arith, count-sorted x (ids_of ns), distinct x)),
    );
    counted = (graph-Built ns edges).counted;
  }

  -- What an edge puts before a node stands before it in an order of Kahn's loop.
  behind :
      (e : DagEdge) (earlier later : List String)
      → Memᴰ e edges
      → contains e.src (ids_of ns) ≡ true
      → contains e.dst (ids_of ns) ≡ true
      → InOrder (mgmt_of ns) (table_of ns edges) [] (earlier ++ (e.dst ∷ later))
      → contains e.src earlier ≡ true
  unfolding contains
  behind e earlier later m s d h =
      let known =
        linked-adds (nodes_of ns) edges e (no_successors (nodes_of ns)) (λ x. 0)
          (no_successors-Built (nodes_of ns)) m (contains-sorted e.src (ids_of ns) ∙ s)
          (contains-sorted e.dst (ids_of ns) ∙ d) in
      ground (
        arith,
        InOrder-before (mgmt_of ns) (table_of ns edges) e.src e.dst [] earlier later h known,
      )

  order-members :
      (order : List String) (left : Indegree)
      → kahn
          (length (nodes_of ns))
          (mgmt_of ns)
          (table_of ns edges)
          (frontier_of ns edges)
          (indegree_of ns edges)
        ≡ some (order, left)
      → (x : String) → contains x order ≡ true
      → contains x (ids_of ns) ≡ true
  order-members order left found x m =
      let within = (graph-Built ns edges).within in
      sym (contains-sorted x (ids_of ns))
      ∙ contains-of_count x (nodes_of ns) (
          kahn-members (mgmt_of ns) (table_of ns edges) (length (nodes_of ns)) (nodes_of ns)
            (frontier_of ns edges) (indegree_of ns edges) left order
            (λ y k. omega (
              arith,
              k,
              count-by_frontier (mgmt_of ns) y
                  (keep (λ n. indegree_of ns edges n == 0) (nodes_of ns)),
              count-keep-le y (nodes_of ns) (indegree_of ns edges),
            ))
            (λ u y k.
              contains-count y (nodes_of ns)
                (within u y (contains-of_count y (successors u (table_of ns edges)) k)))
            found x (contains-count x order m))

  -- If the nodes of a change have distinct ids and `_topological` returns, then what it returns is a
  -- total order: it has only nodes, none twice and as many as the change has, and the source of each
  -- edge between two nodes comes before its destination.
  pub topological-IsOrder :
      (order : List String) → topological ns edges ≡ some (ok order) → IsOrder ns edges order
  unfolding topological checked_order ordered
  topological-IsOrder order h =
      elim (Option-cases (
        kahn (length (nodes_of ns)) (mgmt_of ns) (table_of ns edges) (frontier_of ns edges)
          (indegree_of ns edges))) [
            | inl out ↦ absurd (cc (rw (out, topological) at h))
            | inr ((o, left), found) ↦ elim (Bool-cases (length o == length (nodes_of ns))) [
              | inr short ↦ absurd (cc (rw (found, topological, short) at h))
              | inl full ↦
                  let same : o ≡ order = ap ordered (rw (found, topological, full) at h) in
                  let (in_order, once) =
                    kahn-InOrder (mgmt_of ns) (table_of ns edges) (length (nodes_of ns)) []
                      (frontier_of ns edges) (indegree_of ns edges) left o frontier-Kept found in
                  record {
                    once = λ x. rw (← same) (omega (arith, once x));
                    total = ground (arith, same, full, length-sorted (ids_of ns));
                    members = λ x m. order-members o left found x (rw (← same) at m);
                    before = λ e earlier later m s d split.
                        behind e earlier later m s d (rw (same ∙ split) at in_order);
                  }
            ]
          ]
