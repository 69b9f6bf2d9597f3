-- ===== src/Engines/DependencyDag/Links.antt =====
-- engines/dependency_dag.py: what the loop over the edges builds.
use network.Prelude.{
  ◌+◌, ◌≤◌, ◌≡◌, refl, subst, Bool, true, false, not, ◌&&◌, ◌||◌, List, [], ◌∷◌, Memᴰ, String,
  str_eq, arith, eq_iff, contains, if◌then◌else◌, Bool-cases, inl, inr,
}
use network.Engines.DependencyDag.{
  DagEdge, Successors, Indegree, successors, add_successor, no_successors, raised_at, link, linked,
}
use network.Engines.DependencyDag.Order.{missing}

-- Whether a node has an entry.
abbrev pub keyed : String → Successors → Bool
keyed u [] = false
keyed u ((w, vs) ∷ table) = str_eq w u || keyed u table

missing-add_successor :
    (x s d : String) (table : Successors)
    → missing x [] (add_successor s d table) ≤ (if str_eq d x then 1 else 0) + missing x [] table
unfolding add_successor contains
missing-add_successor x s d [] = ground arith
missing-add_successor x s d ((u, vs) ∷ table) =
    ground (arith, missing-add_successor x s d table, eq_iff d x, eq_iff x d)

successors-add_successor :
    (u v s d : String) (table : Successors)
    → contains v (successors u (add_successor s d table)) ≡ true
    → (contains v (successors u table) || str_eq v d) ≡ true
unfolding add_successor successors contains
successors-add_successor u v s d [] h = absurd (cc)
successors-add_successor u v s d ((w, vs) ∷ table) h = elim (Bool-cases (str_eq w s)) [
  | inl y ↦ elim (Bool-cases (str_eq w u)) [
    | inl z ↦ ground (arith, y, z)
    | inr z ↦ ground (arith, y, z)
  ]
  | inr n ↦ elim (Bool-cases (str_eq w u)) [
    | inl z ↦ ground (arith, n, z)
    | inr z ↦ ground (arith, n, z, successors-add_successor u v s d table)
  ]
]

add_successor-keeps :
    (u v s d : String) (table : Successors)
    → contains v (successors u table) ≡ true
    → contains v (successors u (add_successor s d table)) ≡ true
unfolding add_successor successors contains
add_successor-keeps u v s d [] h = absurd (cc)
add_successor-keeps u v s d ((w, vs) ∷ table) h = elim (Bool-cases (str_eq w s)) [
  | inl y ↦ elim (Bool-cases (str_eq w u)) [
    | inl z ↦ ground (arith, y, z)
    | inr z ↦ ground (arith, y, z)
  ]
  | inr n ↦ elim (Bool-cases (str_eq w u)) [
    | inl z ↦ ground (arith, n, z)
    | inr z ↦ ground (arith, n, z, add_successor-keeps u v s d table)
  ]
]

add_successor-adds :
    (s d : String) (table : Successors)
    → keyed s table ≡ true
    → contains d (successors s (add_successor s d table)) ≡ true
unfolding add_successor successors contains
add_successor-adds s d [] h = absurd (cc)
add_successor-adds s d ((w, vs) ∷ table) h = elim (Bool-cases (str_eq w s)) [
  | inl y ↦ ground (arith, y, eq_iff d d)
  | inr n ↦ ground (arith, n, add_successor-adds s d table)
]

keyed-add_successor :
    (u s d : String) (table : Successors) → keyed u (add_successor s d table) ≡ keyed u table
unfolding add_successor
keyed-add_successor u s d [] = refl
keyed-add_successor u s d ((w, vs) ∷ table) = ground (arith, keyed-add_successor u s d table)

-- A table and its counters over some nodes.
pub record Built (nodes : List String) (table : Successors) (indeg : Indegree) : Type 0 where
  pub counted : (x : String) → missing x [] table ≤ indeg x
  pub within : (u v : String) → contains v (successors u table) ≡ true → contains v nodes ≡ true
  pub complete : (u : String) → contains u nodes ≡ true → keyed u table ≡ true

abbrev is_new : List String → DagEdge → Successors → Bool
is_new nodes e table =
    contains e.src nodes && contains e.dst nodes && not (contains e.dst (successors e.src table))

added-Built :
    (nodes : List String) (e : DagEdge) (table : Successors) (indeg : Indegree)
    → contains e.dst nodes ≡ true
    → Built nodes table indeg
    → Built nodes (add_successor e.src e.dst table) (raised_at e.dst indeg)
added-Built nodes e table indeg known b = record {
  counted = λ x. ground (arith, b.counted x, missing-add_successor x e.src e.dst table);
  within = λ u v h. elim (Bool-cases (str_eq v e.dst)) [
    | inl y ↦ let same : v ≡ e.dst = (eq_iff v e.dst).0 y in rw same known
    | inr n ↦ b.within u v (ground (arith, n, successors-add_successor u v e.src e.dst table h))
  ];
  complete = λ u h. rw (keyed-add_successor u e.src e.dst table) (b.complete u h);
}

-- An edge between nodes that is not new is in the table.
old :
    (nodes : List String) (e : DagEdge) (table : Successors)
    → contains e.src nodes ≡ true
    → contains e.dst nodes ≡ true
    → is_new nodes e table ≡ false
    → contains e.dst (successors e.src table) ≡ true
old nodes e table s d h = ground (arith, s, d, h)

none-missing : (x : String) (nodes : List String) → missing x [] (no_successors nodes) ≡ 0
unfolding no_successors contains
none-missing x [] = refl
none-missing x (n ∷ ns) = omega (arith, none-missing x ns)

none-listed :
    (u v : String) (nodes : List String)
    → contains v (successors u (no_successors nodes)) ≡ true
    → ⊥
unfolding no_successors successors contains
none-listed u v [] h = absurd (cc)
none-listed u v (n ∷ ns) h = elim (Bool-cases (str_eq n u)) [
  | inl y ↦ absurd (cc (rw y at h))
  | inr other ↦ none-listed u v ns (rw other at h)
]

none-keyed :
    (u : String) (nodes : List String)
    → contains u nodes ≡ true
    → keyed u (no_successors nodes) ≡ true
unfolding no_successors contains
none-keyed u [] h = absurd (cc)
none-keyed u (n ∷ ns) h = ground (arith, none-keyed u ns, eq_iff u n, eq_iff n u)

link-Built :
    (nodes : List String) (e : DagEdge) (table : Successors) (indeg : Indegree)
    → Built nodes table indeg
    → Built nodes (link nodes e table indeg).0 (link nodes e table indeg).1
unfolding link
link-Built nodes e table indeg b = elim (Bool-cases (is_new nodes e table)) [
  | inr n ↦ rw n b
  | inl y ↦ rw y (added-Built nodes e table indeg (ground (arith, y)) b)
]

link-keeps :
    (nodes : List String) (e : DagEdge) (u v : String) (table : Successors) (indeg : Indegree)
    → contains v (successors u table) ≡ true
    → contains v (successors u (link nodes e table indeg).0) ≡ true
unfolding link
link-keeps nodes e u v table indeg h = elim (Bool-cases (is_new nodes e table)) [
  | inr n ↦ rw n h
  | inl y ↦ rw y (add_successor-keeps u v e.src e.dst table h)
]

link-adds :
    (nodes : List String) (e : DagEdge) (table : Successors) (indeg : Indegree)
    → Built nodes table indeg
    → contains e.src nodes ≡ true
    → contains e.dst nodes ≡ true
    → contains e.dst (successors e.src (link nodes e table indeg).0) ≡ true
unfolding link
link-adds nodes e table indeg b s d = elim (Bool-cases (is_new nodes e table)) [
  | inr n ↦ rw n (old nodes e table s d n)
  | inl y ↦ rw y (add_successor-adds e.src e.dst table (b.complete e.src s))
]

pub linked-Built :
    (nodes : List String) (es : List DagEdge) (table : Successors) (indeg : Indegree)
    → Built nodes table indeg
    → Built nodes (linked nodes es table indeg).0 (linked nodes es table indeg).1
unfolding linked
linked-Built nodes [] table indeg b = b
linked-Built nodes (e ∷ es) table indeg b =
    linked-Built nodes es _ _ (link-Built nodes e table indeg b)

linked-keeps :
    (nodes : List String) (es : List DagEdge) (u v : String) (table : Successors) (indeg : Indegree)
    → contains v (successors u table) ≡ true
    → contains v (successors u (linked nodes es table indeg).0) ≡ true
unfolding linked
linked-keeps nodes [] u v table indeg h = h
linked-keeps nodes (e ∷ es) u v table indeg h =
    linked-keeps nodes es u v _ _ (link-keeps nodes e u v table indeg h)

-- Every edge between two nodes is in the table.
pub linked-adds :
    (nodes : List String) (es : List DagEdge) (e : DagEdge) (table : Successors) (indeg : Indegree)
    → Built nodes table indeg
    → Memᴰ e es
    → contains e.src nodes ≡ true
    → contains e.dst nodes ≡ true
    → contains e.dst (successors e.src (linked nodes es table indeg).0) ≡ true
unfolding linked
linked-adds nodes [] e table indeg b m s d = elim m [ ]
linked-adds nodes (x ∷ es) e table indeg b (Memᴰ.tail m) s d =
    linked-adds nodes es e _ _ (link-Built nodes x table indeg b) m s d
linked-adds nodes (x ∷ es) e table indeg b (Memᴰ.head same) s d =
    linked-keeps nodes es e.src e.dst _ _ (
      subst (λ (y : DagEdge). contains e.dst (successors e.src (link nodes y table indeg).0) ≡ true)
        same (link-adds nodes e table indeg b s d))

pub no_successors-Built : (nodes : List String) → Built nodes (no_successors nodes) (λ x. 0)
no_successors-Built nodes = record {
  counted = λ x. omega (arith, none-missing x nodes);
  within = λ u v h. absurd (none-listed u v nodes h);
  complete = λ u h. none-keyed u nodes h;
}
