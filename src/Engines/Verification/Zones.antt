-- ===== src/Engines/Verification/Zones.antt =====
-- engines/verification.py: the zones that `derive` pairs are those of the intent.
use network.Prelude.{
  ◌≡◌, refl, ◌∙◌, inl, inr, true, List, [], ◌∷◌, Memᴰ, String, arith, str_eq, eq_iff, Bool-cases,
  map, contains,
}
use network.Prelude.Order.{sorted, contains-sorted, unique, contains-unique}
use network.Engines.Verification.{Zone, NetworkIntent, zone_names}

contains-mem : (x : String) (xs : List String) → contains x xs ≡ true → Memᴰ x xs
unfolding contains
contains-mem x [] h = absurd (ground arith)
contains-mem x (y ∷ ys) h = elim (Bool-cases (str_eq x y)) [
  | inl e ↦ rw ((eq_iff x y).0 e) (Memᴰ.head refl)
  | inr e ↦ Memᴰ.tail (contains-mem x ys (ground arith))
]

zone-contains :
    (z : Zone) (zones : List Zone)
    → Memᴰ z zones
    → contains z.name (map (λ (y : Zone). y.name) zones) ≡ true
unfolding contains
zone-contains z [] m = elim m [ ]
zone-contains z (x ∷ xs) (Memᴰ.head e) = rw e (ground (arith, eq_iff x.name x.name))
zone-contains z (x ∷ xs) (Memᴰ.tail m) = ground (arith, zone-contains z xs m)

-- No zone of the intent is left out of the names.
pub zone-named :
    (intent : NetworkIntent) (z : Zone) → Memᴰ z intent.zones → Memᴰ z.name (zone_names intent)
unfolding zone_names
zone-named intent z m =
    let names = map (λ (y : Zone). y.name) intent.zones in
    contains-mem z.name (sorted (unique names)) (
      contains-sorted z.name (unique names)
      ∙ contains-unique z.name names
      ∙ zone-contains z intent.zones m)
