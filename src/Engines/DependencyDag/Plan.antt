-- ===== src/Engines/DependencyDag/Plan.antt =====
-- engines/dependency_dag.py: what a plan that `build` returns keeps.
use network.Prelude.{
  ◌≤◌, ◌≡◌, ◌⊎◌, refl, ap, subst, ◌∙◌, true, Option, some, List, [], ◌∷◌, ◌++◌, Memᴰ, String, arith,
  eq_iff, contains, count, length, Bool-cases, inl, inr,
}
use network.Prelude.Dict.{Dict}
use network.Prelude.Order.{sorted}
use network.Core.Failures.{
  Failure, Error, failed, Result, ok, err, Result-cases, ◌>>=◌, ◌>>◌, >>=-eq-ok,
}
use network.Engines.ConfigIr.{IrNode, ConfigIr}
use network.Engines.DependencyDag.{DagEdge, ids_of, checked_order}
use network.Engines.DependencyDag.Build.{
  ServiceGraph, DagPlan, check_provides, depends_edges, requires_edges, check_conflicts,
  service_edges, node_edges, all_edges, edges_of, build,
}
use network.Engines.DependencyDag.Total.{IsOrder, topological-IsOrder, topological_checked}
use network.Engines.DependencyDag.Build.Refusals.{build-Refuses}

abbrev depends_edge : String → String → DagEdge
depends_edge dep id = record { src = dep; dst = id; reason = "DEPENDS_ON" }

Mem-append_left : (e : DagEdge) (xs ys : List DagEdge) → Memᴰ e xs → Memᴰ e (xs ++ ys)
Mem-append_left e [] ys m = elim m [ ]
Mem-append_left e (x ∷ xs) ys (Memᴰ.head h) = Memᴰ.head h
Mem-append_left e (x ∷ xs) ys (Memᴰ.tail m) = Memᴰ.tail (Mem-append_left e xs ys m)

Mem-append_right : (e : DagEdge) (xs ys : List DagEdge) → Memᴰ e ys → Memᴰ e (xs ++ ys)
Mem-append_right e [] ys m = m
Mem-append_right e (x ∷ xs) ys m = Memᴰ.tail (Mem-append_right e xs ys m)

edges_in : Result (List DagEdge) → List DagEdge
edges_in (ok edges) = edges
edges_in (err x) = []

one_of :
    (nodes : List String) (id dep d : String) (deps : List String) (es : List DagEdge)
    → contains d nodes ≡ true
    → (Memᴰ dep deps → Memᴰ (depends_edge dep id) es × (contains dep nodes ≡ true))
    → Memᴰ dep (d ∷ deps)
    → Memᴰ (depends_edge dep id) (depends_edge d id ∷ es) × (contains dep nodes ≡ true)
one_of nodes id dep d deps es known go (Memᴰ.head e) =
    (Memᴰ.head (ap (λ (x : String). depends_edge x id) e), rw e known)
one_of nodes id dep d deps es known go (Memᴰ.tail m) = (Memᴰ.tail (go m).0, (go m).1)

-- `depends_edges` returns an edge for each id, and returns only if all are in the change.
depends_edges-Mem :
    (nodes : List String) (id dep : String) (deps : List String) (edges : List DagEdge)
    → depends_edges nodes id deps ≡ ok edges
    → Memᴰ dep deps
    → Memᴰ (depends_edge dep id) edges × (contains dep nodes ≡ true)
unfolding depends_edges edges_in
depends_edges-Mem nodes id dep [] edges h m = elim m [ ]
depends_edges-Mem nodes id dep (d ∷ deps) edges h m = elim (Bool-cases (contains d nodes)) [
  | inr lost ↦ absurd (cc (rw lost at h))
  | inl known ↦
      let (es, ret, same) =
        >>=-eq-ok (depends_edges nodes id deps) (λ es. ok (depends_edge d id ∷ es))
          (rw known at h) in
      subst (λ (all : List DagEdge). Memᴰ (depends_edge dep id) all × (contains dep nodes ≡ true))
        (ap edges_in same)
        (one_of nodes id dep d deps es known (depends_edges-Mem nodes id dep deps es ret) m)
]

module _ (services : Option ServiceGraph) (nodes : List IrNode) (external : List String)
    (providers : Dict (List String)) where
  node_edges-Mem :
      (n : IrNode) (dep : String) (edges : List DagEdge)
      → node_edges services nodes external providers n ≡ ok edges
      → Memᴰ dep n.depends_on
      → Memᴰ (depends_edge dep n.node_id) edges × (contains dep (ids_of nodes) ≡ true)
  unfolding node_edges edges_in
  node_edges-Mem n dep edges h m =
      let (by_id, r1, h1) =
        >>=-eq-ok (depends_edges (ids_of nodes) n.node_id n.depends_on)
          (λ by_id. requires_edges external providers n.node_id n.requires >>= λ by_token.
            check_conflicts n providers
            >> (service_edges services nodes external n >>= λ by_service.
                ok (by_id ++ (by_token ++ by_service))))
          h in
      let (by_token, r2, h2) =
        >>=-eq-ok (requires_edges external providers n.node_id n.requires)
          (λ by_token.
            check_conflicts n providers
            >> (service_edges services nodes external n >>= λ by_service.
                ok (by_id ++ (by_token ++ by_service))))
          h1 in
      let (done, r3, h3) =
        >>=-eq-ok (check_conflicts n providers)
          (λ done. service_edges services nodes external n >>= λ by_service.
            ok (by_id ++ (by_token ++ by_service)))
          h2 in
      let (by_service, r4, h4) =
        >>=-eq-ok (service_edges services nodes external n)
          (λ by_service. ok (by_id ++ (by_token ++ by_service))) h3 in
      let (found, known) = depends_edges-Mem (ids_of nodes) n.node_id dep n.depends_on by_id r1 m in
      (
        subst (λ (all : List DagEdge). Memᴰ (depends_edge dep n.node_id) all) (ap edges_in h4)
            (Mem-append_left (depends_edge dep n.node_id) by_id (by_token ++ by_service) found),
        known,
      )

  all_edges-Mem :
      (ns : List IrNode) (n : IrNode) (dep : String) (edges : List DagEdge)
      → all_edges services nodes external providers ns ≡ ok edges
      → Memᴰ n ns
      → Memᴰ dep n.depends_on
      → Memᴰ (depends_edge dep n.node_id) edges × (contains dep (ids_of nodes) ≡ true)
  unfolding all_edges edges_in
  all_edges-Mem [] n dep edges h m d = elim m [ ]
  all_edges-Mem (x ∷ ns) n dep edges h m d =
      let (own, r1, h1) =
        >>=-eq-ok (node_edges services nodes external providers x)
          (λ own. all_edges services nodes external providers ns >>= λ others. ok (own ++ others))
          h in
      let (others, r2, h2) =
        >>=-eq-ok (all_edges services nodes external providers ns) (λ others. ok (own ++ others))
          h1 in
      elim m [
        | Memᴰ.head e ↦
            let (found, known) = node_edges-Mem x dep own r1 (rw e at d) in
            (
              subst (λ (all : List DagEdge). Memᴰ (depends_edge dep n.node_id) all) (ap edges_in h2)
                  (Mem-append_left (depends_edge dep n.node_id) own others (rw e found)),
              known,
            )
        | Memᴰ.tail later ↦
            let (found, known) = all_edges-Mem ns n dep others r2 later d in
            (
              subst (λ (all : List DagEdge). Memᴰ (depends_edge dep n.node_id) all) (ap edges_in h2)
                  (Mem-append_right (depends_edge dep n.node_id) own others found),
              known,
            )
      ]

ids_of-contains :
    (ns : List IrNode) (n : IrNode) → Memᴰ n ns → contains n.node_id (ids_of ns) ≡ true
unfolding ids_of contains
ids_of-contains [] n m = elim m [ ]
ids_of-contains (x ∷ ns) n (Memᴰ.head e) = rw e (ground (arith, eq_iff x.node_id x.node_id))
ids_of-contains (x ∷ ns) n (Memᴰ.tail m) = ground (arith, ids_of-contains ns n m)

-- A plan for a change: a total order in which each node stands behind all that it depends on.
pub record IsPlan (ir : ConfigIr) (plan : DagPlan) : Type 0 where
  pub of_change : plan.ir_id ≡ ir.ir_id
  pub once : (x : String) → count x plan.order ≤ 1
  pub total : length plan.order ≡ length (ids_of ir.nodes)
  pub members : (x : String) → contains x plan.order ≡ true → contains x (ids_of ir.nodes) ≡ true
  pub behind :
      (n : IrNode) (dep : String) (earlier later : List String)
      → Memᴰ n ir.nodes
      → Memᴰ dep n.depends_on
      → plan.order ≡ earlier ++ (n.node_id ∷ later)
      → contains dep earlier ≡ true

answered : Option (Result DagPlan) → DagPlan
answered (some (ok plan)) = plan
answered _ = record { ir_id = ""; order = [] }

module _ (services : Option ServiceGraph) (ir : ConfigIr) (external : List String) where
  -- `build` ends for every change, cyclic dependencies included: it returns a plan, or raises a typed
  -- failure and no other exception.
  pub build_total :
      ((plan : DagPlan) × (build services ir external ≡ some (ok plan)))
      ⊎ ((f : Failure) × (build services ir external ≡ some (err (failed f))))
  build_total =
      let (r, found, refuses) = build-Refuses services ir external in
      elim (Result-cases r) [
        | inl (plan, good) ↦ inl (plan, found ∙ ap some good)
        | inr (x, bad) ↦
            let (f, same) = refuses x bad in
            inr (f, found ∙ ap some (bad ∙ ap (λ (y : Error). err y) same))
      ]

  planned :
      (edges : List DagEdge) (order : List String)
      → edges_of services ir external ≡ ok edges
      → IsOrder ir.nodes edges order
      → IsPlan ir (record { ir_id = ir.ir_id; order = order })
  unfolding edges_of
  planned edges order good o =
      let (providers, provided, rest) =
        >>=-eq-ok (check_provides ir)
          (λ providers. all_edges services ir.nodes external providers ir.nodes) good in
      record {
        of_change = refl;
        once = o.once;
        total = o.total;
        members = o.members;
        behind = λ n dep earlier later m d split.
            let (found, known) =
              all_edges-Mem services ir.nodes external providers ir.nodes n dep edges rest m d in
            o.before (depends_edge dep n.node_id) earlier later found known
              (ids_of-contains ir.nodes n m) split;
      }

  -- If the nodes of a change have distinct ids and `build` returns a plan, then its order has only
  -- nodes of the change, none twice and as many as the change has, and each node stands behind all the
  -- nodes that it depends on.
  pub build-IsPlan :
      (plan : DagPlan)
      → ((x : String) → count x (ids_of ir.nodes) ≤ 1)
      → build services ir external ≡ some (ok plan)
      → IsPlan ir plan
  unfolding build answered
  build-IsPlan plan distinct h = elim (Result-cases (edges_of services ir external)) [
    | inr (x, bad) ↦ absurd (cc (rw (bad, build) at h))
    | inl (edges, good) ↦
        let (out, found) = topological_checked ir.nodes edges in
        let answer = checked_order (sorted (ids_of ir.nodes)) out in
        elim (Result-cases answer) [
          | inr (x, raised) ↦ absurd (cc (rw (good, build, found, raised) at h))
          | inl (order, done) ↦
              subst (IsPlan ir) (ap answered (rw (good, build, found, done) at h)) (
                planned edges order good
                  (topological-IsOrder ir.nodes edges distinct order (found ∙ ap some done)))
        ]
  ]
