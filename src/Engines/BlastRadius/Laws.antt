-- ===== src/Engines/BlastRadius/Laws.antt =====
-- engines/blast_radius.py: what the propagation finds.
use network.Prelude.{
  ℕ, suc, ◌≤◌, ◌<◌, ◌≢◌, ◌⊎◌, inl, inr, Memᴰ, ◌≡◌, refl, ◌∙◌, ap, true, false, List, [], ◌∷◌,
  String, arith, eq_iff, contains, length, All,
}
use network.Prelude.Order.{sorted}
use network.Engines.ConfigIr.{EntityRef, IrNode, ConfigIr, gate_class}
use network.Engines.BlastRadius.Targets.{
  IsDistinct, Targeted, direct_of-IsDistinct, direct_of-Targeted, mem-direct_of,
}
use network.Engines.BlastRadius.{
  BlastReport, direct_of, Hot, heated, heat_all, visit, sweep, spread, changed_ids, direct_entities,
  propagate, evaluate,
}

-- A node that is in the change is passed over.
sweep-changed :
    (changed : List String) (h : Hot) (ns : List IrNode)
    → All (λ (n : IrNode). contains n.node_id changed ≡ true) ns
    → sweep changed h ns ≡ h
unfolding sweep visit
sweep-changed changed h [] all = refl
sweep-changed changed h (n ∷ ns) all = rw all.0 (sweep-changed changed h ns all.1)

All-later :
    (x : String) (xs : List String) (ns : List IrNode)
    → All (λ (n : IrNode). contains n.node_id xs ≡ true) ns
    → All (λ (n : IrNode). contains n.node_id (x ∷ xs) ≡ true) ns
unfolding contains
All-later x xs [] h = tt
All-later x xs (n ∷ ns) h = (ground (arith, h.0), All-later x xs ns h.1)

All-changed :
    (ns : List IrNode) → All (λ (n : IrNode). contains n.node_id (changed_ids ns) ≡ true) ns
unfolding contains changed_ids
All-changed [] = tt
All-changed (n ∷ ns) = (
  ground (arith, eq_iff n.node_id n.node_id),
  All-later n.node_id (changed_ids ns) ns (All-changed ns),
)

heat_all-affected : (h : Hot) (ns : List IrNode) → (heat_all h ns).affected ≡ h.affected
unfolding heat_all heated
heat_all-affected h [] = refl
heat_all-affected h (n ∷ ns) = heat_all-affected (heated h n) ns

spread-nothing :
    (fuel : ℕ) (changed : List String) (ns : List IrNode) (h : Hot)
    → All (λ (n : IrNode). contains n.node_id changed ≡ true) ns
    → (spread (suc fuel) changed ns h).affected ≡ h.affected
unfolding spread
spread-nothing fuel changed ns h all =
    rw (sweep-changed changed (record h { progressed = false }) ns all) refl

-- The propagation of every change finds no affected node, whatever the
-- nodes require, provide or share.
pub propagate-nil : (ir : ConfigIr) → propagate ir ≡ []
unfolding propagate sorted
propagate-nil ir =
    let nothing : Hot = record { tokens = []; entities = []; affected = []; progressed = true } in
    let hot = heat_all nothing ir.nodes in
    ap sorted (
      spread-nothing (length ir.nodes) (changed_ids ir.nodes) ir.nodes hot (All-changed ir.nodes)
      ∙ heat_all-affected nothing ir.nodes)

-- A report of each target of the change, once, and of its risk.
pub record Assessed (threshold : ℕ) (ir : ConfigIr) (r : BlastReport) : Type 0 where
  pub once : IsDistinct r.directly_affected
  pub all : (n : IrNode) → Memᴰ n ir.nodes → Memᴰ n.target r.directly_affected
  pub no_other : (x : EntityRef) → Memᴰ x r.directly_affected → Targeted ir.nodes x
  pub none_downstream : r.internal_affected_nodes ≡ []
  pub raised :
      gate_class ir ≡ "LOW_RISK"
      → threshold < length r.directly_affected
      → r.risk_class ≡ "HIGH_RISK"
  pub kept :
      (gate_class ir ≢ "LOW_RISK") ⊎ (length r.directly_affected ≤ threshold)
      → r.risk_class ≡ gate_class ir

-- The report lists the target of every node of the change, each once, no other entity, and no
-- downstream node. Its risk class is the gate class of the change, raised from LOW_RISK to HIGH_RISK
-- exactly if there are more of these targets than the threshold.
pub evaluate-risk : (threshold : ℕ) (ir : ConfigIr) → Assessed threshold ir (evaluate threshold ir)
unfolding evaluate direct_entities
evaluate-risk threshold ir =
    let direct = direct_of ir.nodes in
    let quiet : length (propagate ir) ≡ 0 = rw (propagate-nil ir) refl in
    record {
      once = direct_of-IsDistinct ir.nodes;
      all = mem-direct_of ir.nodes;
      no_other = λ x m. direct_of-Targeted x ir.nodes m;
      none_downstream = propagate-nil ir;
      raised = λ low more. ground (arith, quiet, low, more, eq_iff (gate_class ir) "LOW_RISK");
      kept = λ h. elim h [
        | inl high ↦ ground (arith, quiet, high, eq_iff (gate_class ir) "LOW_RISK")
        | inr few ↦ ground (arith, quiet, few)
      ];
    }
