-- ===== src/Engines/DependencyDag/Build/Refusals.antt =====
-- engines/dependency_dag.py: every exception of `build` is a typed failure, so `prepare` catches it.
use network.Prelude.{
  ◌≡◌, refl, sym, ap, ◌∙◌, Bool, true, false, Option, none, some, List, [], ◌∷◌, String, contains,
  if◌then◌else◌, inl, inr, Option-cases,
}
use network.Prelude.Dict.{Dict, lookup}
use network.Prelude.Order.{sorted}
use network.Core.Failures.{
  Failure, Error, failed, value_error, Result, ok, err, raise_blocked, Result-cases, ◌>>=◌,
}
use network.Engines.ConfigIr.{IrNode, ConfigIr}
use network.Engines.DependencyDag.{Indegree, ids_of, checked_order}
use network.Engines.DependencyDag.Total.{topological_checked}
use network.Engines.DependencyDag.Build.{
  ServiceGraph, DagPlan, single_owners, check_provides, clash, check_conflicts, depends_edges,
  requires_edges, service_loop, service_edges, node_edges, all_edges, edges_of, plan_of, build,
}

-- The call raises nothing but failures.
abbrev pub Refuses : {A : Type 0} → Result A → Type 0
Refuses r = (x : Error) → r ≡ err x → (f : Failure) × (x ≡ failed f)

error_in : {A : Type 0} → Result A → Error
error_in (err x) = x
error_in (ok a) = value_error ""

ok-Refuses : {A : Type 0} (a : A) → Refuses (ok a)
ok-Refuses a x h = absurd (cc)

blocked-Refuses : {A : Type 0} (cause : String) → Refuses {A = A} (raise_blocked cause)
unfolding error_in
blocked-Refuses cause x h = (_, sym (ap error_in h))

bind-Refuses :
    {A B : Type 0} (m : Result A) (next : A → Result B)
    → Refuses m
    → ((a : A) → Refuses (next a))
    → Refuses (m >>= next)
unfolding error_in
bind-Refuses (err y) next h k x e = let (f, same) = h y refl in (f, sym (ap error_in e) ∙ same)
bind-Refuses (ok a) next h k x e = k a x e

if-Refuses :
    {A : Type 0} (b : Bool) (yea nay : Result A)
    → Refuses yea
    → Refuses nay
    → Refuses (if b then yea else nay)
if-Refuses true yea nay h k = h
if-Refuses false yea nay h k = k

raised-Refuses : {A : Type 0} (x : Error) → (f : Failure) × (x ≡ failed f) → Refuses {A = A} (err x)
unfolding error_in
raised-Refuses x (f, same) y h = (f, sym (ap error_in h) ∙ same)

single_owners-Refuses :
    (tokens : List String) (providers : Dict (List String))
    → Refuses (single_owners tokens providers)
unfolding single_owners
single_owners-Refuses [] providers = ok-Refuses tt
single_owners-Refuses (token ∷ tokens) providers =
    if-Refuses _ _ _ (blocked-Refuses _) (single_owners-Refuses tokens providers)

depends_edges-Refuses :
    (nodes : List String) (id : String) (deps : List String) → Refuses (depends_edges nodes id deps)
unfolding depends_edges
depends_edges-Refuses nodes id [] = ok-Refuses []
depends_edges-Refuses nodes id (dep ∷ deps) = if-Refuses _ _ _ (blocked-Refuses _) (
    bind-Refuses (depends_edges nodes id deps) _ (depends_edges-Refuses nodes id deps)
      (λ edges. ok-Refuses _))

clash-Refuses :
    (head verb : String) (n : IrNode) (providers : Dict (List String)) (tokens : List String)
    → Refuses (clash head verb n providers tokens)
unfolding clash
clash-Refuses head verb n providers [] = ok-Refuses tt
clash-Refuses head verb n providers (token ∷ tokens) =
    elim (Option-cases (lookup token providers)) [
      | inl absent ↦ rw (absent, clash) (clash-Refuses head verb n providers tokens)
      | inr (owners, found) ↦
          rw (found, clash)
            (if-Refuses _ _ _ (blocked-Refuses _) (clash-Refuses head verb n providers tokens))
    ]

requires_edges-Refuses :
    (external : List String) (providers : Dict (List String)) (id : String) (tokens : List String)
    → Refuses (requires_edges external providers id tokens)
unfolding requires_edges
requires_edges-Refuses external providers id [] = ok-Refuses []
requires_edges-Refuses external providers id (token ∷ tokens) =
    let rest = requires_edges-Refuses external providers id tokens in
    if-Refuses (contains token external) _ _ rest (elim (Option-cases (lookup token providers)) [
      | inl absent ↦ rw absent (blocked-Refuses _)
      | inr (owners, found) ↦ rw found (
          bind-Refuses (requires_edges external providers id tokens) _ rest (λ edges. ok-Refuses _))
    ])

service_loop-Refuses :
    (nodes : List IrNode) (external : List String) (n : IrNode) (deps : List String)
    → Refuses (service_loop nodes external n deps)
unfolding service_loop
service_loop-Refuses nodes external n [] = ok-Refuses []
service_loop-Refuses nodes external n (dep ∷ deps) =
    let rest = service_loop-Refuses nodes external n deps in
    if-Refuses _ _ _
      (bind-Refuses (service_loop nodes external n deps) _ rest (λ edges. ok-Refuses _))
      (if-Refuses _ _ _ (blocked-Refuses _) rest)

service_edges-Refuses :
    (services : Option ServiceGraph) (nodes : List IrNode) (external : List String) (n : IrNode)
    → Refuses (service_edges services nodes external n)
unfolding service_edges
service_edges-Refuses none nodes external n = ok-Refuses []
service_edges-Refuses (some services) nodes external n =
    elim (Option-cases (lookup n.feature services)) [
      | inl absent ↦ rw (absent, service_edges) (ok-Refuses [])
      | inr (deps, found) ↦ rw (found, service_edges) (service_loop-Refuses nodes external n deps)
    ]

module _ (services : Option ServiceGraph) (nodes : List IrNode) (external : List String)
    (providers : Dict (List String)) where
  node_edges-Refuses : (n : IrNode) → Refuses (node_edges services nodes external providers n)
  unfolding node_edges check_conflicts
  node_edges-Refuses n =
      bind-Refuses (depends_edges (ids_of nodes) n.node_id n.depends_on) _
        (depends_edges-Refuses (ids_of nodes) n.node_id n.depends_on)
        (λ by_id.
          bind-Refuses (requires_edges external providers n.node_id n.requires) _
            (requires_edges-Refuses external providers n.node_id n.requires)
            (λ by_token.
              bind-Refuses (check_conflicts n providers) _
                (bind-Refuses
                  (clash "CONFLICT: " " declares conflict with " n providers (sorted n.conflicts)) _
                  (clash-Refuses "CONFLICT: " " declares conflict with " n providers
                    (sorted n.conflicts))
                  (λ done.
                    clash-Refuses "BLOCKS_VIOLATION: " " blocks " n providers (sorted n.blocks)))
                (λ done.
                  bind-Refuses (service_edges services nodes external n) _
                    (service_edges-Refuses services nodes external n)
                    (λ by_service. ok-Refuses _))))

  all_edges-Refuses : (ns : List IrNode) → Refuses (all_edges services nodes external providers ns)
  unfolding all_edges
  all_edges-Refuses [] = ok-Refuses []
  all_edges-Refuses (n ∷ ns) =
      bind-Refuses (node_edges services nodes external providers n) _ (node_edges-Refuses n) (λ own.
        bind-Refuses (all_edges services nodes external providers ns) _ (all_edges-Refuses ns)
          (λ others. ok-Refuses _))

edges_of-Refuses :
    (services : Option ServiceGraph) (ir : ConfigIr) (external : List String)
    → Refuses (edges_of services ir external)
unfolding edges_of check_provides
edges_of-Refuses services ir external =
    bind-Refuses (check_provides ir) _
      (bind-Refuses _ _ (single_owners-Refuses _ _) (λ done. ok-Refuses _))
      (λ providers. all_edges-Refuses services ir.nodes external providers ir.nodes)

checked_order-Refuses :
    (nodes : List String) (out : List String × Indegree) → Refuses (checked_order nodes out)
unfolding checked_order
checked_order-Refuses nodes (order, left) = if-Refuses _ _ _ (blocked-Refuses _) (ok-Refuses order)

-- `build` ends for every change, with an answer that raises nothing but failures.
pub build-Refuses :
    (services : Option ServiceGraph) (ir : ConfigIr) (external : List String)
    → (r : Result DagPlan) × (build services ir external ≡ some r) × Refuses r
unfolding build
build-Refuses services ir external = elim (Result-cases (edges_of services ir external)) [
  | inr (x, bad) ↦
      (err x, rw (bad, build) refl, raised-Refuses x (edges_of-Refuses services ir external x bad))
  | inl (edges, good) ↦
      let (out, found) = topological_checked ir.nodes edges in
      (
        checked_order (sorted (ids_of ir.nodes)) out >>= plan_of ir,
        rw (good, build, found) refl,
        bind-Refuses (checked_order (sorted (ids_of ir.nodes)) out) (plan_of ir)
            (checked_order-Refuses (sorted (ids_of ir.nodes)) out) (λ order. ok-Refuses _),
      )
]
