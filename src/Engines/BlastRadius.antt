-- ===== src/Engines/BlastRadius.antt =====
-- engines/blast_radius.py: E13, what a change affects, and its risk class. Of the report the services
-- and the gaps of the links, which read the service graph and the twin, are left out.
pub mod Targets
pub mod Laws
use network.Prelude.{
  ℕ, zero, suc, ◌+◌, ltb, Bool, true, false, not, ◌&&◌, ◌||◌, List, [], ◌∷◌, ◌++◌, String, str_eq,
  contains, length, if◌then◌else◌,
}
use network.Prelude.Order.{sorted, text_le}
use network.Engines.ConfigIr.{
  EntityRef, IrNode, ConfigIr, gate_class, touches_mgmt, touches_management_plane,
}

pub record BlastReport : Type 0 where
  pub ir_id : String
  pub risk_class : String
  pub directly_affected : List EntityRef
  pub internal_affected_nodes : List String
  pub management_plane_touched : Bool

abbrev pub same_entity : EntityRef → EntityRef → Bool
same_entity a b = str_eq a.entity_type b.entity_type && str_eq a.entity_ref b.entity_ref

pub has_entity : EntityRef → List EntityRef → Bool
has_entity a [] = false
has_entity a (b ∷ bs) = same_entity a b || has_entity a bs

-- The order of the pairs `(entity_type, entity_ref)`
pub entity_le : EntityRef → EntityRef → Bool
entity_le a b =
    if str_eq a.entity_type b.entity_type
    then text_le a.entity_ref b.entity_ref
    else text_le a.entity_type b.entity_type

pub place : EntityRef → List EntityRef → List EntityRef
place a [] = a ∷ []
place a (b ∷ bs) = let rest = place a bs in if entity_le a b then a ∷ b ∷ bs else b ∷ rest

pub direct_of : List IrNode → List EntityRef
direct_of [] = []
direct_of (n ∷ ns) =
    let rest = direct_of ns in if has_entity n.target rest then rest else place n.target rest

unfoldable pub direct_entities : ConfigIr → List EntityRef
unfolding direct_of has_entity place entity_le
direct_entities ir = direct_of ir.nodes

-- The sets that `_propagate` grows.
pub record Hot : Type 0 where
  pub tokens : List String
  pub entities : List EntityRef
  pub affected : List String
  pub progressed : Bool

heated : Hot → IrNode → Hot
heated h n = record h {
  tokens = n.feature ∷ (n.provides ++ h.tokens);
  entities = n.target ∷ h.entities;
}

heat_all : Hot → List IrNode → Hot
heat_all h [] = h
heat_all h (n ∷ ns) = heat_all (heated h n) ns

-- `bool(set(xs) & hot_tokens)`
any_hot : List String → List String → Bool
any_hot [] hot = false
any_hot (x ∷ xs) hot = contains x hot || any_hot xs hot

hit : Hot → IrNode → Bool
unfolding any_hot has_entity
hit h n =
    any_hot n.requires h.tokens
    || has_entity n.target h.entities
    || any_hot n.conflicts h.tokens
    || any_hot n.blocks h.tokens

-- The body of the `for` loop, and the loop.
visit : List String → Hot → IrNode → Hot
visit changed h n =
    if contains n.node_id changed || contains n.node_id h.affected
    then h
    else if hit h n
    then record (heated h n) { affected = n.node_id ∷ h.affected; progressed = true }
    else h

sweep : List String → Hot → List IrNode → Hot
sweep changed h [] = h
sweep changed h (n ∷ ns) = sweep changed (visit changed h n) ns

-- The `while` loop, for at most so many turns as its fuel.
spread : ℕ → List String → List IrNode → Hot → Hot
spread zero changed nodes h = h
spread (suc fuel) changed nodes h =
    let swept = sweep changed (record h { progressed = false }) nodes in
    let more = spread fuel changed nodes swept in if swept.progressed then more else swept

changed_ids : List IrNode → List String
changed_ids [] = []
changed_ids (n ∷ ns) = n.node_id ∷ changed_ids ns

unfoldable pub propagate : ConfigIr → List String
unfolding spread sweep visit heat_all heated changed_ids hit
propagate ir =
    let nothing : Hot = record { tokens = []; entities = []; affected = []; progressed = true } in
    sorted
      (spread (suc (length ir.nodes)) (changed_ids ir.nodes) ir.nodes
        (heat_all nothing ir.nodes)).affected

-- `_mgmt_touched`: the nodes first, then those of the affected ids
any_mgmt_id : List IrNode → List String → Bool
any_mgmt_id [] ids = false
any_mgmt_id (n ∷ ns) ids = (contains n.node_id ids && touches_mgmt n) || any_mgmt_id ns ids

unfoldable pub mgmt_touched : ConfigIr → List String → Bool
unfolding any_mgmt_id
mgmt_touched ir affected = touches_management_plane ir || any_mgmt_id ir.nodes affected

unfoldable pub evaluate : ℕ → ConfigIr → BlastReport
evaluate threshold ir =
    let affected = propagate ir in
    let direct = direct_entities ir in
    let risk = gate_class ir in
    record {
      ir_id = ir.ir_id;
      risk_class =
          if str_eq risk "LOW_RISK" && ltb threshold (length direct + length affected)
          then "HIGH_RISK"
          else risk;
      directly_affected = direct;
      internal_affected_nodes = affected;
      management_plane_touched = mgmt_touched ir affected;
    }
