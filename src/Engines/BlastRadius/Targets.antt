-- ===== src/Engines/BlastRadius/Targets.antt =====
-- engines/blast_radius.py: `_direct_entities` lists each target of the change once.
use network.Prelude.{
  ◌≡◌, refl, sym, ◌⊎◌, inl, inr, true, List, [], ◌∷◌, Memᴰ, arith, eq_iff, eq_refl, and-left,
  and-right, Bool-cases,
}
use network.Engines.ConfigIr.{EntityRef, IrNode}
use network.Engines.BlastRadius.{same_entity, has_entity, entity_le, place, direct_of}

-- No entity comes twice.
abbrev pub IsDistinct : List EntityRef → Type 0
IsDistinct [] = Unit
IsDistinct (a ∷ others) = ¬ Memᴰ a others × IsDistinct others

-- Some node of the change has the target.
abbrev pub Targeted : List IrNode → EntityRef → Type 0
Targeted ns x = (n : IrNode) × Memᴰ n ns × (x ≡ n.target)

same_entity-eq : (a b : EntityRef) → same_entity a b ≡ true → a ≡ b
same_entity-eq a b h =
    let p = (eq_iff a.entity_type b.entity_type).0 (and-left _ _ h) in
    let q = (eq_iff a.entity_ref b.entity_ref).0 (and-right _ _ h) in
    λ i. record { entity_type = p i; entity_ref = q i }

has_entity-mem : (a : EntityRef) (bs : List EntityRef) → has_entity a bs ≡ true → Memᴰ a bs
unfolding has_entity
has_entity-mem a [] h = absurd (ground arith)
has_entity-mem a (b ∷ bs) h = elim (Bool-cases (same_entity a b)) [
  | inl e ↦ Memᴰ.head (same_entity-eq a b e)
  | inr e ↦ Memᴰ.tail (has_entity-mem a bs (ground (arith, h, e)))
]

mem-has_entity : (a : EntityRef) (bs : List EntityRef) → Memᴰ a bs → has_entity a bs ≡ true
unfolding has_entity
mem-has_entity a [] m = elim m [ ]
mem-has_entity a (b ∷ bs) (Memᴰ.head e) =
    rw e (ground (arith, eq_refl b.entity_type, eq_refl b.entity_ref))
mem-has_entity a (b ∷ bs) (Memᴰ.tail m) = ground (arith, mem-has_entity a bs m)

place-mem : (x a : EntityRef) (bs : List EntityRef) → Memᴰ x (place a bs) → (x ≡ a) ⊎ Memᴰ x bs
unfolding place
place-mem x a [] (Memᴰ.head e) = inl e
place-mem x a [] (Memᴰ.tail m) = elim m [ ]
place-mem x a (b ∷ bs) m = elim (Bool-cases (entity_le a b)) [
  | inl y ↦ elim (rw (y, place) at m) [ Memᴰ.head e ↦ inl e | Memᴰ.tail k ↦ inr k ]
  | inr n ↦ elim (rw (n, place) at m) [
    | Memᴰ.head e ↦ inr (Memᴰ.head e)
    | Memᴰ.tail k ↦ elim (place-mem x a bs k) [ inl e ↦ inl e | inr l ↦ inr (Memᴰ.tail l) ]
  ]
]

mem-place : (x a : EntityRef) (bs : List EntityRef) → (x ≡ a) ⊎ Memᴰ x bs → Memᴰ x (place a bs)
unfolding place
mem-place x a [] (inl e) = Memᴰ.head e
mem-place x a [] (inr m) = elim m [ ]
mem-place x a (b ∷ bs) h = elim (Bool-cases (entity_le a b)) [
  | inl y ↦ rw (y, place) (elim h [ inl e ↦ Memᴰ.head e | inr m ↦ Memᴰ.tail m ])
  | inr n ↦
      rw (n, place)
        (elim h [
          | inl e ↦ Memᴰ.tail (mem-place x a bs (inl e))
          | inr (Memᴰ.head e) ↦ Memᴰ.head e
          | inr (Memᴰ.tail m) ↦ Memᴰ.tail (mem-place x a bs (inr m))
        ])
]

place-IsDistinct :
    (a : EntityRef) (bs : List EntityRef) → ¬ Memᴰ a bs → IsDistinct bs → IsDistinct (place a bs)
unfolding place
place-IsDistinct a [] new d = (new, tt)
place-IsDistinct a (b ∷ bs) new d = elim (Bool-cases (entity_le a b)) [
  | inl y ↦ rw (y, place) (new, d)
  | inr n ↦
      let later = place-IsDistinct a bs (λ m. new (Memᴰ.tail m)) d.1 in
      let apart : ¬ Memᴰ b (place a bs) =
        λ m. elim (place-mem b a bs m) [ inl e ↦ new (Memᴰ.head (sym e)) | inr k ↦ d.0 k ] in
      rw (n, place) (apart, later)
]

-- Each target is listed once.
pub direct_of-IsDistinct : (ns : List IrNode) → IsDistinct (direct_of ns)
unfolding direct_of
direct_of-IsDistinct [] = tt
direct_of-IsDistinct (n ∷ ns) =
    let rest = direct_of-IsDistinct ns in
    elim (Bool-cases (has_entity n.target (direct_of ns))) [
      | inl y ↦ rw (y, direct_of) rest
      | inr new ↦
          rw (new, direct_of)
            (place-IsDistinct n.target (direct_of ns)
              (λ m. ground (arith, new, mem-has_entity n.target (direct_of ns) m)) rest)
    ]

pub direct_of-Targeted : (x : EntityRef) (ns : List IrNode) → Memᴰ x (direct_of ns) → Targeted ns x
unfolding direct_of
direct_of-Targeted x [] m = elim m [ ]
direct_of-Targeted x (n ∷ ns) m =
    let later : Memᴰ x (direct_of ns) → Targeted (n ∷ ns) x =
      λ k. let (l, ml, e) = direct_of-Targeted x ns k in (l, Memᴰ.tail ml, e) in
    elim (Bool-cases (has_entity n.target (direct_of ns))) [
      | inl y ↦ later (rw (y, direct_of) at m)
      | inr new ↦ elim (place-mem x n.target (direct_of ns) (rw (new, direct_of) at m)) [
        | inl e ↦ (n, Memᴰ.head refl, e)
        | inr k ↦ later k
      ]
    ]

-- No target is left out.
pub mem-direct_of : (ns : List IrNode) (n : IrNode) → Memᴰ n ns → Memᴰ n.target (direct_of ns)
unfolding direct_of
mem-direct_of [] n m = elim m [ ]
mem-direct_of (k ∷ ks) n (Memᴰ.head e) =
    rw e (elim (Bool-cases (has_entity k.target (direct_of ks))) [
      | inl y ↦ rw (y, direct_of) (has_entity-mem k.target (direct_of ks) y)
      | inr new ↦ rw (new, direct_of) (mem-place k.target k.target (direct_of ks) (inl refl))
    ])
mem-direct_of (k ∷ ks) n (Memᴰ.tail m) =
    let rest = mem-direct_of ks n m in
    elim (Bool-cases (has_entity k.target (direct_of ks))) [
      | inl y ↦ rw (y, direct_of) rest
      | inr new ↦ rw (new, direct_of) (mem-place n.target k.target (direct_of ks) (inr rest))
    ]
