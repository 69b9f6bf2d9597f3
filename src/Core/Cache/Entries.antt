-- ===== src/Core/Cache/Entries.antt =====
-- core/cache.py: lists of items: what is found, removed and evicted.
use network.Prelude.{
  ℕ, suc, ◌≤◌, ◌<◌, ◌≡◌, refl, inl, inr, false, none, some, List, [], ◌∷◌, ◌++◌, ltb, length,
  if◌then◌else◌, arith, Bool-cases,
}
use network.Core.Cache.{Hashable, evict, find, remove}

module _ {K V : Type 0} (hash : Hashable K) where
  open hash use {same, same_iff}

  -- No key comes twice.
  abbrev pub Distinct : List (K × V) → Type 0
  Distinct [] = Unit
  Distinct ((k, v) ∷ es) = (find hash k es ≡ none) × Distinct es

  find-remove :
      (k j : K) (es : List (K × V))
      → find hash j (remove hash k es) ≡ (if same k j then none else find hash j es)
  unfolding find remove
  find-remove k j [] = ground arith
  find-remove k j ((i, v) ∷ es) =
      ground (arith, find-remove k j es, same_iff k j, same_iff i j, same_iff i k)

  find-append :
      (j : K) (xs ys : List (K × V))
      → find hash j xs ≡ none
      → find hash j (xs ++ ys) ≡ find hash j ys
  unfolding find
  find-append j [] ys h = refl
  find-append j ((i, v) ∷ xs) ys h = ground (arith, find-append j xs ys)

  find-snoc_other :
      (j k : K) (v : V) (xs : List (K × V))
      → find hash j xs ≡ none
      → same k j ≡ false
      → find hash j (xs ++ ((k, v) ∷ [])) ≡ none
  unfolding find
  find-snoc_other j k v xs h n = ground (arith, find-append j xs ((k, v) ∷ []) h)

  pub find-removed : (k : K) (es : List (K × V)) → find hash k (remove hash k es) ≡ none
  find-removed k es = ground (arith, find-remove k k es, same_iff k k)

  pub find-last :
      (k : K) (v : V) (es : List (K × V))
      → find hash k es ≡ none
      → find hash k (es ++ ((k, v) ∷ [])) ≡ some v
  unfolding find
  find-last k v es h = ground (arith, find-append k es ((k, v) ∷ []) h, same_iff k k)

  pub Distinct-snoc :
      (k : K) (v : V) (es : List (K × V))
      → Distinct es
      → find hash k es ≡ none
      → Distinct (es ++ ((k, v) ∷ []))
  unfolding find
  Distinct-snoc k v [] d h = (refl, tt)
  Distinct-snoc k v ((i, w) ∷ es) d h = (
    find-snoc_other i k v es d.0 (ground (arith, same_iff k i, same_iff i k)),
    Distinct-snoc k v es d.1 (ground arith),
  )

  pub Distinct-remove : (k : K) (es : List (K × V)) → Distinct es → Distinct (remove hash k es)
  unfolding remove
  Distinct-remove k [] d = tt
  Distinct-remove k ((i, v) ∷ es) d = elim (Bool-cases (same i k)) [
    | inl e ↦ rw (e, remove) (Distinct-remove k es d.1)
    | inr e ↦ rw (e, remove) (ground (arith, find-remove k i es, d.0), Distinct-remove k es d.1)
  ]

  pub length-remove : (k : K) (es : List (K × V)) → length (remove hash k es) ≤ length es
  unfolding remove
  length-remove k [] = omega arith
  length-remove k ((i, v) ∷ es) = ground (arith, length-remove k es)

  pub length-remove_found :
      (k : K) (es : List (K × V)) {v : V}
      → find hash k es ≡ some v
      → length (remove hash k es) < length es
  unfolding remove find
  length-remove_found k [] h = cc
  length-remove_found k ((i, w) ∷ es) {v} h = elim (Bool-cases (same i k)) [
    | inl e ↦ rw (e, remove) (omega (arith, length-remove k es))
    | inr e ↦ rw (e, remove) (omega (arith, length-remove_found k es {v = v} (ground arith)))
  ]

  pub length-evict : (cap n : ℕ) (es : List (K × V)) → length (evict cap es n).0 ≤ cap
  unfolding evict
  length-evict cap n [] = omega arith
  length-evict cap n (e ∷ es) = ground (arith, length-evict cap (suc n) es)

  pub Distinct-evict : (cap n : ℕ) (es : List (K × V)) → Distinct es → Distinct (evict cap es n).0
  unfolding evict
  Distinct-evict cap n [] d = tt
  Distinct-evict cap n (e ∷ es) d = elim (Bool-cases (ltb cap (length (e ∷ es)))) [
    | inl h ↦ rw (h, evict) (Distinct-evict cap (suc n) es d.1)
    | inr h ↦ rw (h, evict) d
  ]

  -- The newest item is never evicted from a cache with room for one.
  pub find-evict_last :
      (cap n : ℕ) (k : K) (v : V) (es : List (K × V))
      → 0 < cap
      → find hash k es ≡ none
      → find hash k (evict cap (es ++ ((k, v) ∷ [])) n).0 ≡ some v
  unfolding evict find
  find-evict_last cap n k v [] p h = ground (arith, same_iff k k)
  find-evict_last cap n k v ((i, w) ∷ es) p h =
      ground
        (arith, find-evict_last cap (suc n) k v es p, find-append k es ((k, v) ∷ []), same_iff k k)

  evict-kept : (cap n : ℕ) (es : List (K × V)) → length es ≤ cap → evict cap es n ≡ (es, n)
  unfolding evict
  evict-kept cap n [] h = refl
  evict-kept cap n (e ∷ es) h = ground arith

  pub evict_one :
      (e : K × V) (es : List (K × V)) (cap n : ℕ)
      → length es ≡ cap
      → evict cap (e ∷ es) n ≡ (es, suc n)
  unfolding evict
  evict_one e es cap n h = ground (arith, evict-kept cap (suc n) es)
