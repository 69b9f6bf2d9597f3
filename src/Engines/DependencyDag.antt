-- ===== src/Engines/DependencyDag.antt =====
-- engines/dependency_dag.py: E12, the order in which the nodes of a change are deployed. Its sorting
-- by Kahn's algorithm; the edges are given.
pub mod Counting
pub mod Order
pub mod Links
pub mod Total
pub mod Build
pub mod Plan
use network.Prelude.{
  ℕ, zero, suc, ◌-◌, ◌+◌, ◌==◌, ltb, Bool, true, false, not, ◌&&◌, ◌||◌, Option, none, some, List,
  [], ◌∷◌, ◌++◌, String, str_eq, contains, length, if◌then◌else◌, ◌+++◌,
}
use network.Prelude.Order.{sorted}
use network.Core.Failures.{Result, ok, raise_blocked}
use network.Fsm.Evidence.{list_repr}
use network.Engines.ConfigIr.{IrNode}

-- An edge: what is to run first, what behind it, and why.
pub record DagEdge : Type 0 where
  pub src : String
  pub dst : String
  pub reason : String

-- `succ`, by the nodes in their order, and `indeg`
abbrev pub Successors : Type 0
Successors = List (String × List String)

abbrev pub Indegree : Type 0
Indegree = String → ℕ

unfoldable pub ids_of : List IrNode → List String
ids_of [] = []
ids_of (n ∷ ns) = n.node_id ∷ ids_of ns

mgmt_of : List IrNode → List String
mgmt_of [] = []
mgmt_of (n ∷ ns) =
    let rest = mgmt_of ns in if n.touches_management_plane then n.node_id ∷ rest else rest

-- `succ[nid]`
unfoldable pub successors : String → Successors → List String
successors nid [] = []
successors nid ((u, vs) ∷ table) =
    let rest = successors nid table in if str_eq u nid then vs else rest

-- `succ[src].add(dst)`
add_successor : String → String → Successors → Successors
add_successor src dst [] = []
add_successor src dst ((u, vs) ∷ table) =
    let rest = add_successor src dst table in
    if str_eq u src then (u, dst ∷ vs) ∷ table else (u, vs) ∷ rest

unfoldable pub no_successors : List String → Successors
no_successors [] = []
no_successors (n ∷ ns) = (n, []) ∷ no_successors ns

abbrev pub raised_at : String → Indegree → Indegree
raised_at v indeg x = if str_eq v x then indeg x + 1 else indeg x

abbrev pub lowered_at : String → Indegree → Indegree
lowered_at v indeg x = if str_eq v x then indeg x - 1 else indeg x

-- The loop over the edges: an edge between nodes that is not there yet is added.
unfoldable pub link : List String → DagEdge → Successors → Indegree → Successors × Indegree
unfolding add_successor
link nodes e table indeg =
    if contains e.src nodes && contains e.dst nodes && not (contains e.dst (successors e.src table))
    then (add_successor e.src e.dst table, raised_at e.dst indeg)
    else (table, indeg)

unfoldable pub linked : List String → List DagEdge → Successors → Indegree → Successors × Indegree
linked nodes [] table indeg = (table, indeg)
linked nodes (e ∷ es) table indeg =
    let (table', indeg') = link nodes e table indeg in linked nodes es table' indeg'

-- The loop over the successors of a node: a counter that comes to zero makes its node ready.
unfoldable pub release : List String → Indegree → List String × Indegree
release [] indeg = ([], indeg)
release (v ∷ vs) indeg =
    let (freed, after) = release vs (lowered_at v indeg) in
    (if indeg v == 1 then v ∷ freed else freed, after)

keep : (String → Bool) → List String → List String
keep test [] = []
keep test (x ∷ xs) = let rest = keep test xs in if test x then x ∷ rest else rest

-- `sorted(..., key=frontier_key)`: the management plane first, then by name
unfoldable pub by_frontier : List String → List String → List String
unfolding keep
by_frontier mgmt xs =
    sorted (keep (λ x. contains x mgmt) xs) ++ sorted (keep (λ x. not (contains x mgmt)) xs)

-- The `while` loop: the rest of the order, and the counters that are left.
unfoldable pub kahn :
    ℕ → List String → Successors → List String → Indegree → Option (List String × Indegree)
kahn fuel mgmt table [] indeg = some ([], indeg)
kahn zero mgmt table (current ∷ ready) indeg = none
kahn (suc fuel) mgmt table (current ∷ ready) indeg =
    let (freed, after) = release (sorted (successors current table)) indeg in
    elim (kahn fuel mgmt table (by_frontier mgmt (ready ++ freed)) after) [
      | none ↦ none
      | some (order, left) ↦ some (current ∷ order, left)
    ]

-- The check behind the loop: what never became ready is in a cycle, or behind one.
unfoldable pub checked_order : List String → List String × Indegree → Result (List String)
unfolding keep
checked_order nodes (order, left) =
    if not (length order == length nodes)
    then raise_blocked (
        "DEPENDENCY_CYCLE: no total order exists; nodes in cycle: "
        +++ list_repr (sorted (keep (λ n. ltb 0 (left n)) nodes)))
    else ok order

-- `_topological`, without its report on the management plane
unfoldable pub topological : List IrNode → List DagEdge → Option (Result (List String))
unfolding mgmt_of keep
topological ns edges =
    let nodes = sorted (ids_of ns) in
    let mgmt = mgmt_of ns in
    let (table, indeg) = linked nodes edges (no_successors nodes) (λ x. 0) in
    elim (kahn (length nodes) mgmt table (by_frontier mgmt (keep (λ n. indeg n == 0) nodes))
      indeg) [ none ↦ none | some out ↦ some (checked_order nodes out) ]
