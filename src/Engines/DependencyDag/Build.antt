-- ===== src/Engines/DependencyDag/Build.antt =====
-- engines/dependency_dag.py: `build`, which checks a change, collects the edges between its nodes and
-- sorts them. Of the service graph it reads the names and what each service depends on.
pub mod Refusals
use network.Prelude.{
  ltb, Bool, false, not, ◌&&◌, ◌||◌, Option, none, some, List, [], ◌∷◌, ◌++◌, String, str_eq,
  contains, is_empty, length, if◌then◌else◌, ◌+++◌,
}
use network.Prelude.Dict.{Dict, lookup, insert, keys}
use network.Prelude.Order.{sorted}
use network.Core.Failures.{Result, ok, err, raise_blocked, ◌>>=◌, ◌>>◌}
use network.Fsm.Evidence.{list_repr}
use network.Engines.ConfigIr.{IrNode, ConfigIr}
use network.Engines.DependencyDag.{DagEdge, ids_of, topological}

-- `SERVICE_TOKEN_PREFIX`
abbrev pub service_token : String → String
service_token dep = "service:" +++ dep

-- `depends_on` of each service of a `ServiceGraph`
abbrev pub ServiceGraph : Type 0
ServiceGraph = Dict (List String)

pub record DagPlan : Type 0 where
  pub ir_id : String
  pub order : List String

abbrev repr : String → String
repr s = "'" +++ s +++ "'"

abbrev owners_or_none : Option (List String) → List String
owners_or_none none = []
owners_or_none (some owners) = owners

-- `providers.setdefault(token, []).append(node_id)`
provide_all : String → List String → Dict (List String) → Dict (List String)
provide_all id [] providers = providers
provide_all id (token ∷ tokens) providers =
    provide_all id tokens
      (insert token (owners_or_none (lookup token providers) ++ (id ∷ [])) providers)

providers_from : List IrNode → Dict (List String) → Dict (List String)
providers_from [] providers = providers
providers_from (n ∷ ns) providers = providers_from ns (provide_all n.node_id n.provides providers)

single_owners : List String → Dict (List String) → Result (Unit {0})
single_owners [] providers = ok tt
single_owners (token ∷ tokens) providers =
    let owners = owners_or_none (lookup token providers) in
    let rest = single_owners tokens providers in
    if ltb 1 (length owners)
    then raise_blocked (
        "DUPLICATE_PROVIDES: token "
        +++ repr token
        +++ " provided by "
        +++ list_repr (sorted owners))
    else rest

unfoldable pub check_provides : ConfigIr → Result (Dict (List String))
unfolding providers_from single_owners provide_all
check_provides ir =
    let providers = providers_from ir.nodes [] in
    single_owners (sorted (keys providers)) providers >> ok providers

-- `providers[token] != [node.node_id]`
abbrev is_alone : String → List String → Bool
is_alone id (x ∷ []) = str_eq x id
is_alone id _ = false

-- One loop of `_check_conflicts`, with the words of its message.
clash : String → String → IrNode → Dict (List String) → List String → Result (Unit {0})
clash head verb n providers [] = ok tt
clash head verb n providers (token ∷ tokens) =
    let rest = clash head verb n providers tokens in
    elim (lookup token providers) [
      | none ↦ rest
      | some owners ↦
          if not (is_alone n.node_id owners)
          then raise_blocked (
              head
              +++ n.node_id
              +++ verb
              +++ repr token
              +++ " but "
              +++ list_repr owners
              +++ " provide it in the same change")
          else rest
    ]

unfoldable pub check_conflicts : IrNode → Dict (List String) → Result (Unit {0})
unfolding clash
check_conflicts n providers =
    clash "CONFLICT: " " declares conflict with " n providers (sorted n.conflicts)
    >> clash "BLOCKS_VIOLATION: " " blocks " n providers (sorted n.blocks)

unfoldable pub depends_edges : List String → String → List String → Result (List DagEdge)
depends_edges nodes id [] = ok []
depends_edges nodes id (dep ∷ deps) =
    let rest = depends_edges nodes id deps in
    if not (contains dep nodes)
    then raise_blocked
        ("UNKNOWN_DEPENDS_ON: " +++ id +++ " depends_on " +++ repr dep +++ " — not in this IR")
    else rest >>= λ edges. ok (record { src = dep; dst = id; reason = "DEPENDS_ON" } ∷ edges)

unfoldable pub owner_edges : String → String → List String → List DagEdge
owner_edges id reason [] = []
owner_edges id reason (owner ∷ owners) =
    let rest = owner_edges id reason owners in
    if str_eq owner id then rest else record { src = owner; dst = id; reason = reason } ∷ rest

unfoldable pub requires_edges :
    List String → Dict (List String) → String → List String → Result (List DagEdge)
requires_edges external providers id [] = ok []
requires_edges external providers id (token ∷ tokens) =
    let rest = requires_edges external providers id tokens in
    if contains token external then rest else elim (lookup token providers) [
      | none ↦ raise_blocked (
          "UNSATISFIED_REQUIRES: "
          +++ id
          +++ " requires "
          +++ repr token
          +++ " — nothing provides it")
      | some owners ↦
          rest >>= λ edges. ok (owner_edges id ("REQUIRES_TOKEN:" +++ token) owners ++ edges)
    ]

service_owners : String → String → List IrNode → List String
service_owners id dep [] = []
service_owners id dep (n ∷ ns) =
    let rest = service_owners id dep ns in
    if not (str_eq n.node_id id)
      && (str_eq n.feature dep || contains (service_token dep) n.provides)
    then n.node_id ∷ rest
    else rest

service_loop : List IrNode → List String → IrNode → List String → Result (List DagEdge)
service_loop nodes external n [] = ok []
service_loop nodes external n (dep ∷ deps) =
    let rest = service_loop nodes external n deps in
    let owners = service_owners n.node_id dep nodes in
    if not (is_empty owners)
    then (rest >>= λ edges.
        ok (owner_edges n.node_id ("SERVICE_DEP:" +++ dep) (sorted owners) ++ edges))
    else if not (contains (service_token dep) external)
    then raise_blocked (
        "SERVICE_DEP_UNMET: "
        +++ n.node_id
        +++ " uses service "
        +++ repr n.feature
        +++ " which depends on "
        +++ repr dep
        +++ " — neither provided in IR nor external")
    else rest

unfoldable pub service_edges :
    Option ServiceGraph → List IrNode → List String → IrNode → Result (List DagEdge)
unfolding service_loop service_owners
service_edges none nodes external n = ok []
service_edges (some services) nodes external n = elim (lookup n.feature services) [
  | none ↦ ok []
  | some deps ↦ service_loop nodes external n deps
]

-- The loop of `build` over the nodes.
unfoldable pub node_edges :
    Option ServiceGraph
    → List IrNode
    → List String
    → Dict (List String)
    → IrNode
    → Result (List DagEdge)
node_edges services nodes external providers n =
    depends_edges (ids_of nodes) n.node_id n.depends_on >>= λ by_id.
    requires_edges external providers n.node_id n.requires >>= λ by_token.
    check_conflicts n providers
    >> (service_edges services nodes external n >>= λ by_service.
        ok (by_id ++ (by_token ++ by_service)))

unfoldable pub all_edges :
    Option ServiceGraph
    → List IrNode
    → List String
    → Dict (List String)
    → List IrNode
    → Result (List DagEdge)
all_edges services nodes external providers [] = ok []
all_edges services nodes external providers (n ∷ ns) =
    node_edges services nodes external providers n >>= λ edges.
    all_edges services nodes external providers ns >>= λ others. ok (edges ++ others)

-- The edges, behind the check of what is provided.
unfoldable pub edges_of : Option ServiceGraph → ConfigIr → List String → Result (List DagEdge)
edges_of services ir external =
    check_provides ir >>= λ providers. all_edges services ir.nodes external providers ir.nodes

abbrev pub plan_of : ConfigIr → List String → Result DagPlan
plan_of ir order = ok (record { ir_id = ir.ir_id; order = order })

-- `build`; `none` is the loop of `_topological` out of fuel.
unfoldable pub build : Option ServiceGraph → ConfigIr → List String → Option (Result DagPlan)
build services ir external = elim (edges_of services ir external) [
  | err x ↦ some (err x)
  | ok edges ↦ elim (topological ir.nodes edges) [
    | none ↦ none
    | some answer ↦ some (answer >>= plan_of ir)
  ]
]
