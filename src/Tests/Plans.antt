-- ===== src/Tests/Plans.antt =====
-- engines/dependency_dag.py and engines/blast_radius.py at concrete changes.
use network.Engines.BlastRadius.{evaluate}
use network.Engines.BlastRadius.Laws.{Assessed, evaluate-risk}
use network.Prelude.{
  ◌⊎◌, ◌≡◌, ◌≤◌, refl, some, none, true, [], ◌∷◌, String, arith, eq_iff, contains, count, str_eq,
  Bool-cases, inl, inr,
}
use network.Prelude.Order.{sorted}
use network.Core.Failures.{Failure, failed, err, ok}
use network.Engines.ConfigIr.{IrNode, ConfigIr}
use network.Engines.DependencyDag.{
  DagEdge, ids_of, successors, no_successors, link, linked, release, by_frontier, kahn,
  checked_order, topological,
}
use network.Engines.DependencyDag.Total.{IsOrder, topological-IsOrder}
use network.Engines.DependencyDag.Build.{
  DagPlan, build, edges_of, check_provides, check_conflicts, depends_edges, requires_edges,
  service_edges, node_edges, all_edges,
}
use network.Engines.DependencyDag.Plan.{IsPlan, build_total, build-IsPlan}
use network.Tests.Drivers.{vlan}

-- A node of the management plane that needs the VLAN.
abbrev ssh : IrNode
ssh = record vlan {
  node_id = "a1";
  feature = "ssh_mgmt";
  depends_on = "n1" ∷ [];
  touches_management_plane = true;
}

abbrev two_nodes : ConfigIr
two_nodes = record { title = "VLAN for management"; nodes = ssh ∷ vlan ∷ []; ir_id = "ir2" }

distinct : (x : String) → count x (ids_of (ssh ∷ vlan ∷ [])) ≤ 1
unfolding ids_of
distinct x = elim (Bool-cases (str_eq x "a1")) [
  | inl y ↦ let same : x ≡ "a1" = (eq_iff x "a1").0 y in rw same (omega arith)
  | inr other ↦ elim (Bool-cases (str_eq x "n1")) [
    | inl z ↦ rw (other, z) (omega arith)
    | inr none_of ↦ rw (other, none_of) (omega arith)
  ]
]

abbrev edge : DagEdge
edge = record { src = "n1"; dst = "a1"; reason = "DEPENDS_ON" }

sorts : topological (ssh ∷ vlan ∷ []) (edge ∷ []) ≡ some (ok ("n1" ∷ "a1" ∷ []))
unfolding topological ids_of sorted linked link no_successors successors contains kahn by_frontier
    release checked_order
sorts = refl

topological-IsOrder_example : IsOrder (ssh ∷ vlan ∷ []) (edge ∷ []) ("n1" ∷ "a1" ∷ [])
topological-IsOrder_example =
    topological-IsOrder (ssh ∷ vlan ∷ []) (edge ∷ []) distinct ("n1" ∷ "a1" ∷ []) sorts

plans : build none two_nodes [] ≡ some (ok (record { ir_id = "ir2"; order = "n1" ∷ "a1" ∷ [] }))
unfolding build edges_of check_provides all_edges node_edges depends_edges requires_edges
    check_conflicts service_edges topological ids_of sorted linked link no_successors successors
    contains kahn by_frontier release checked_order
plans = refl

build-IsPlan_example : IsPlan two_nodes (record { ir_id = "ir2"; order = "n1" ∷ "a1" ∷ [] })
build-IsPlan_example =
    build-IsPlan none two_nodes [] (record { ir_id = "ir2"; order = "n1" ∷ "a1" ∷ [] }) distinct
      plans

-- Two nodes that need one another.
abbrev looped : ConfigIr
looped = record {
  title = "loop";
  nodes = ssh ∷ record vlan { depends_on = "a1" ∷ [] } ∷ [];
  ir_id = "ir3";
}

build_total_example :
    ((plan : DagPlan) × (build none looped [] ≡ some (ok plan)))
    ⊎ ((f : Failure) × (build none looped [] ≡ some (err (failed f))))
build_total_example = build_total none looped []

-- Two nodes with one target.
evaluate-risk_example : Assessed 0 two_nodes (evaluate 0 two_nodes)
evaluate-risk_example = evaluate-risk 0 two_nodes
