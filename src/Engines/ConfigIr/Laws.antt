-- ===== src/Engines/ConfigIr/Laws.antt =====
-- engines/config_ir.py: the worst case over all nodes, and the gate class that follows from it.
use network.Prelude.{
  ℕ, ◌≤◌, ◌≡◌, refl, ◌≢◌, ◌⊎◌, inl, inr, Bool, true, false, List, [], ◌∷◌, Memᴰ, arith, Bool-cases,
  if◌then◌else◌, ltb, All, eq_iff, subst,
}
use network.Engines.ConfigIr.{
  Reversibility, reversible_by_replace, irreversible, severity, IrNode, ConfigIr, destructive,
  worst_from, max_reversibility, any_destructive, contains_destructive, touches_mgmt, any_mgmt,
  touches_management_plane, is_irreversible, gate_class,
}

worst_from-bounds :
    (worst : Reversibility) (ns : List IrNode)
    → (severity worst ≤ severity (worst_from worst ns))
      × All (λ n. severity n.reversibility ≤ severity (worst_from worst ns)) ns
unfolding worst_from
worst_from-bounds worst [] = (omega arith, tt)
worst_from-bounds worst (n ∷ ns) =
    let next = if ltb (severity worst) (severity n.reversibility) then n.reversibility else worst in
    let (low, all) = worst_from-bounds next ns in (ground arith, (ground arith, all))

worst_from-mem :
    (worst : Reversibility) (ns : List IrNode)
    → (worst_from worst ns ≡ worst)
      ⊎ ((n : IrNode) × Memᴰ n ns × (worst_from worst ns ≡ n.reversibility))
unfolding worst_from
worst_from-mem worst [] = inl refl
worst_from-mem worst (n ∷ ns) =
    elim (Bool-cases (ltb (severity worst) (severity n.reversibility))) [
      | inl e ↦ elim (worst_from-mem n.reversibility ns) [
        | inl h ↦ inr (n, Memᴰ.head refl, rw (e, worst_from) h)
        | inr (k, m, h) ↦ inr (k, Memᴰ.tail m, rw (e, worst_from) h)
      ]
      | inr e ↦ elim (worst_from-mem worst ns) [
        | inl h ↦ inl (rw (e, worst_from) h)
        | inr (k, m, h) ↦ inr (k, Memᴰ.tail m, rw (e, worst_from) h)
      ]
    ]

-- `max_reversibility` is at least as severe as every node, and it is that of a node or
-- REVERSIBLE_BY_REPLACE.
pub max_reversibility_lem :
    (ir : ConfigIr)
    → All (λ n. severity n.reversibility ≤ severity (max_reversibility ir)) ir.nodes
      × ((max_reversibility ir ≡ reversible_by_replace)
          ⊎ ((n : IrNode) × Memᴰ n ir.nodes × (max_reversibility ir ≡ n.reversibility)))
unfolding max_reversibility
max_reversibility_lem ir = (
  (worst_from-bounds reversible_by_replace ir.nodes).1,
  worst_from-mem reversible_by_replace ir.nodes,
)

-- Some node of the change passes the test.
abbrev pub SomeNode : (IrNode → Bool) → ConfigIr → Type 0
SomeNode test ir = (n : IrNode) × Memᴰ n ir.nodes × (test n ≡ true)

any_destructive-mem :
    (ns : List IrNode) (n : IrNode) → Memᴰ n ns → destructive n ≡ true → any_destructive ns ≡ true
unfolding any_destructive
any_destructive-mem [] n m h = elim m [ ]
any_destructive-mem (x ∷ ns) n (Memᴰ.head e) h =
    let hit : destructive x ≡ true = rw (← e) h in ground arith
any_destructive-mem (x ∷ ns) n (Memᴰ.tail m) h = ground (arith, any_destructive-mem ns n m h)

irreversible-severity : (r : Reversibility) → 2 ≤ severity r → is_irreversible r ≡ true
irreversible-severity r h = ground arith

All-severity :
    (k : ℕ) (ns : List IrNode) (n : IrNode)
    → All (λ x. severity x.reversibility ≤ k) ns
    → Memᴰ n ns
    → severity n.reversibility ≤ k
All-severity k [] n h m = elim m [ ]
All-severity k (x ∷ ns) n h (Memᴰ.head e) = rw e h.0
All-severity k (x ∷ ns) n h (Memᴰ.tail m) = All-severity k ns n h.1 m

any_mgmt-mem :
    (ns : List IrNode) (n : IrNode) → Memᴰ n ns → touches_mgmt n ≡ true → any_mgmt ns ≡ true
unfolding any_mgmt
any_mgmt-mem [] n m h = elim m [ ]
any_mgmt-mem (x ∷ ns) n (Memᴰ.head e) h =
    let hit : touches_mgmt x ≡ true = rw (← e) h in ground arith
any_mgmt-mem (x ∷ ns) n (Memᴰ.tail m) h = ground (arith, any_mgmt-mem ns n m h)

-- A change with a destructive node is gated as DESTRUCTIVE.
pub gate_class-destructive :
    (ir : ConfigIr) → SomeNode destructive ir → gate_class ir ≡ "DESTRUCTIVE"
unfolding gate_class contains_destructive
gate_class-destructive ir (n, m, h) = rw (any_destructive-mem ir.nodes n m h, gate_class)

low_risk_tests :
    (ir : ConfigIr)
    → gate_class ir ≡ "LOW_RISK"
    → (contains_destructive ir ≡ false)
      × (is_irreversible (max_reversibility ir) ≡ false)
      × (touches_management_plane ir ≡ false)
unfolding gate_class
low_risk_tests ir h = ground (
  arith,
  eq_iff "DESTRUCTIVE" "LOW_RISK",
  eq_iff "IRREVERSIBLE" "LOW_RISK",
  eq_iff "HIGH_RISK" "LOW_RISK",
)

not_hit : (b : Bool) {c : Bool} → (b ≡ true → c ≡ true) → c ≡ false → b ≡ false
not_hit true f h = cc (f refl)
not_hit false f h = refl

-- A change that is gated as LOW_RISK has no node that is destructive, none that is irreversible and
-- none that touches the management plane, by its flag or by its feature.
pub gate_class-low_risk :
    (ir : ConfigIr) (n : IrNode)
    → gate_class ir ≡ "LOW_RISK"
    → Memᴰ n ir.nodes
    → (destructive n ≡ false) × (n.reversibility ≢ irreversible) × (touches_mgmt n ≡ false)
unfolding contains_destructive touches_management_plane
gate_class-low_risk ir n h m =
    let (safe, undone, remote) = low_risk_tests ir h in
    (
      not_hit (destructive n) (any_destructive-mem ir.nodes n m) safe,
      λ e.
          let bound =
            All-severity (severity (max_reversibility ir)) ir.nodes n (max_reversibility_lem ir).0
              m in
          cc (
            undone,
            irreversible-severity (max_reversibility ir)
                (subst (λ r. severity r ≤ severity (max_reversibility ir)) e bound),
          ),
      not_hit (touches_mgmt n) (any_mgmt-mem ir.nodes n m) remote,
    )
