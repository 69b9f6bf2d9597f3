-- ===== src/Engines/ConfigIr.antt =====
-- engines/config_ir.py: E09, the vendor-neutral intermediate representation.
pub mod Laws
use network.Prelude.{
  ℕ, Bool, true, false, not, ◌&&◌, ◌||◌, Option, none, some, List, [], ◌∷◌, ◌++◌, String, ltb,
  is_filled, is_empty, if◌then◌else◌, contains, ◌+++◌,
}
use network.Prelude.Dict.{Dict, lookup}
use network.Core.Failures.{Result, ok, err, key_error, raise_blocked}

pub data Reversibility : Type 0 where
  reversible_by_replace reversible_manual irreversible : Reversibility

-- `REVERSIBILITY_SEVERITY.index`
abbrev pub severity : Reversibility → ℕ
severity reversible_by_replace = 0
severity reversible_manual = 1
severity irreversible = 2

pub data Operation : Type 0 where
  create update delete : Operation

abbrev pub destructive_features : List String
destructive_features = "netinstall" ∷ "rommon_reset" ∷ "factory_reset" ∷ "bootloader_recovery" ∷ []

abbrev pub mgmt_features : List String
mgmt_features = "ssh_mgmt" ∷ "aaa_radius" ∷ "mgmt_ip" ∷ "oob" ∷ "console" ∷ []

pub record EntityRef : Type 0 where
  pub entity_type : String
  pub entity_ref : String

-- `EntityRef.__post_init__`
unfoldable pub make_entity_ref : String → String → Result EntityRef
make_entity_ref t r =
    if is_filled t && is_filled r
    then ok (record { entity_type = t; entity_ref = r })
    else raise_blocked "IR_ENTITY_REF_EMPTY: entity_type/entity_ref required"

-- A parameter of a node: a text, or another object by its truth value.
pub data Value : Type 0 where
  text : String → Value
  other : Bool → Value

-- `bool(value)`
abbrev pub truth : Option Value → Bool
truth none = false
truth (some (text s)) = is_filled s
truth (some (other b)) = b

pub record IrNode : Type 0 where
  pub node_id : String
  pub target : EntityRef
  pub operation : Operation
  pub feature : String
  pub vendor_os : String
  pub parameters : Dict Value
  pub reversibility : Reversibility
  pub requires : List String
  pub provides : List String
  pub conflicts : List String
  pub blocks : List String
  pub depends_on : List String
  pub touches_management_plane : Bool

unfoldable pub destructive : IrNode → Bool
destructive n = contains n.feature destructive_features || truth (lookup "destructive" n.parameters)

pub record ConfigIr : Type 0 where
  pub title : String
  pub nodes : List IrNode
  pub ir_id : String

-- the loop of `ConfigIR.__post_init__` over `seen`
first_duplicate : List String → List IrNode → Option String
first_duplicate seen [] = none
first_duplicate seen (n ∷ ns) =
    let rest = first_duplicate (n.node_id ∷ seen) ns in
    if contains n.node_id seen then some n.node_id else rest

-- `ConfigIR.__post_init__`
unfoldable pub config_ir : String → List IrNode → String → Result ConfigIr
unfolding first_duplicate
config_ir title nodes ir_id =
    if not (is_filled title)
    then raise_blocked "IR_TITLE_EMPTY"
    else if is_empty nodes
    then raise_blocked "IR_EMPTY: an IR without nodes is not a change"
    else elim (first_duplicate [] nodes) [
      | some i ↦ raise_blocked ("IR_DUPLICATE_NODE_ID: " +++ i)
      | none ↦ ok (record { title = title; nodes = nodes; ir_id = ir_id })
    ]

find_node : String → List IrNode → Result IrNode
find_node i [] = err (key_error i)
find_node i (n ∷ ns) = if contains i (n.node_id ∷ []) then ok n else find_node i ns

unfoldable pub node : ConfigIr → String → Result IrNode
unfolding find_node
node ir i = find_node i ir.nodes

worst_from : Reversibility → List IrNode → Reversibility
worst_from worst [] = worst
worst_from worst (n ∷ ns) =
    worst_from (if ltb (severity worst) (severity n.reversibility) then n.reversibility else worst)
      ns

unfoldable pub max_reversibility : ConfigIr → Reversibility
unfolding worst_from
max_reversibility ir = worst_from reversible_by_replace ir.nodes

any_destructive : List IrNode → Bool
any_destructive [] = false
any_destructive (n ∷ ns) = destructive n || any_destructive ns

unfoldable pub contains_destructive : ConfigIr → Bool
unfolding any_destructive
contains_destructive ir = any_destructive ir.nodes

unfoldable pub touches_mgmt : IrNode → Bool
touches_mgmt n = n.touches_management_plane || contains n.feature mgmt_features

any_mgmt : List IrNode → Bool
any_mgmt [] = false
any_mgmt (n ∷ ns) = touches_mgmt n || any_mgmt ns

unfoldable pub touches_management_plane : ConfigIr → Bool
unfolding any_mgmt
touches_management_plane ir = any_mgmt ir.nodes

abbrev pub is_irreversible : Reversibility → Bool
is_irreversible irreversible = true
is_irreversible _ = false

unfoldable pub gate_class : ConfigIr → String
gate_class ir =
    if contains_destructive ir
    then "DESTRUCTIVE"
    else if is_irreversible (max_reversibility ir)
    then "IRREVERSIBLE"
    else if touches_management_plane ir
    then "HIGH_RISK"
    else "LOW_RISK"
