-- ===== src/Core/Cache/Laws.antt =====
-- core/cache.py: the bound, the keys, and what is found after a write.
use network.Prelude.{
  ℕ, zero, suc, ◌≤◌, ◌<◌, ◌≡◌, refl, inl, inr, Option, none, some, List, [], ◌∷◌, ◌++◌, length,
  length-append, arith, Option-cases,
}
use network.Core.Failures.{ok}
use network.Core.Cache.{
  Hashable, LruCache, new_cache, clear, find, remove, at_end, get, add, set, delete, read_stats,
  no_stats,
}
use network.Core.Cache.Entries.{
  Distinct, Distinct-snoc, Distinct-remove, Distinct-evict, length-remove_found, length-remove,
  length-evict, find-removed, find-last, find-evict_last, evict_one,
}

-- The calls of a cache.
pub data Call (K V : Type 0) : Type 0 where
  call_get : K → Option V → Call K V
  call_set : K → V → Call K V
  call_delete : K → Call K V
  call_clear call_stats : Call K V

module _ {K V : Type 0} (hash : Hashable K) where
  pub record IsWellFormed (c : LruCache K V) : Type 0 where
    pub positive : 0 < c.capacity
    pub bounded : length c.entries ≤ c.capacity
    pub distinct : Distinct hash c.entries

  moved-bounded :
      (k : K) (v : V) (c : LruCache K V) {u : V}
      → find hash k c.entries ≡ some u
      → IsWellFormed c
      → length (at_end hash k v c) ≤ c.capacity
  moved-bounded k v c h w = omega (
    arith,
    length-append (remove hash k c.entries) ((k, v) ∷ []),
    length-remove_found hash k c.entries h,
    w.bounded,
  )

  moved-Distinct :
      (k : K) (v : V) (c : LruCache K V) → IsWellFormed c → Distinct hash (at_end hash k v c)
  moved-Distinct k v c w =
      Distinct-snoc hash k v (remove hash k c.entries) (Distinct-remove hash k c.entries w.distinct)
        (find-removed hash k c.entries)

  get-IsWellFormed :
      (k : K) (d : Option V) (c : LruCache K V) → IsWellFormed c → IsWellFormed (get hash k d c).1
  unfolding get
  get-IsWellFormed k d c w = elim (Option-cases (find hash k c.entries)) [
    | inl e ↦
        rw (e, get) (record { positive = w.positive; bounded = w.bounded; distinct = w.distinct })
    | inr (v, e) ↦
        rw (e, get)
          (record {
            positive = w.positive;
            bounded = moved-bounded k v c e w;
            distinct = moved-Distinct k v c w;
          })
  ]

  set-IsWellFormed :
      (k : K) (v : V) (c : LruCache K V) → IsWellFormed c → IsWellFormed (set hash k v c)
  unfolding set add
  set-IsWellFormed k v c w = elim (Option-cases (find hash k c.entries)) [
    | inr (old, e) ↦
        rw (e, set)
          (record {
            positive = w.positive;
            bounded = moved-bounded k v c e w;
            distinct = moved-Distinct k v c w;
          })
    | inl e ↦
        rw (e, set)
          (record {
            positive = w.positive;
            bounded = length-evict hash c.capacity c.stats.evictions (c.entries ++ ((k, v) ∷ []));
            distinct =
                Distinct-evict hash c.capacity c.stats.evictions (c.entries ++ ((k, v) ∷ []))
                  (Distinct-snoc hash k v c.entries w.distinct e);
          })
  ]

  delete-IsWellFormed :
      (k : K) (c : LruCache K V) → IsWellFormed c → IsWellFormed (delete hash k c).1
  unfolding delete
  delete-IsWellFormed k c w = elim (Option-cases (find hash k c.entries)) [
    | inl e ↦ rw (e, delete) w
    | inr (v, e) ↦
        rw (e, delete)
          (record {
            positive = w.positive;
            bounded = omega (arith, w.bounded, length-remove hash k c.entries);
            distinct = Distinct-remove hash k c.entries w.distinct;
          })
  ]

  unfoldable pub call : Call K V → LruCache K V → LruCache K V
  call (Call.call_get k d) c = (get hash k d c).1
  call (Call.call_set k v) c = set hash k v c
  call (Call.call_delete k) c = (delete hash k c).1
  call Call.call_clear c = clear c
  call Call.call_stats c = (read_stats c).1

  unfoldable pub calls : List (Call K V) → LruCache K V → LruCache K V
  calls [] c = c
  calls (o ∷ os) c = calls os (call o c)

  call-IsWellFormed : (o : Call K V) (c : LruCache K V) → IsWellFormed c → IsWellFormed (call o c)
  unfolding call clear read_stats
  call-IsWellFormed (Call.call_get k d) c w = get-IsWellFormed k d c w
  call-IsWellFormed (Call.call_set k v) c w = set-IsWellFormed k v c w
  call-IsWellFormed (Call.call_delete k) c w = delete-IsWellFormed k c w
  call-IsWellFormed Call.call_clear c w = record {
    positive = w.positive;
    bounded = omega arith;
    distinct = tt;
  }
  call-IsWellFormed Call.call_stats c w = record {
    positive = w.positive;
    bounded = w.bounded;
    distinct = w.distinct;
  }

  calls-IsWellFormed :
      (os : List (Call K V)) (c : LruCache K V) → IsWellFormed c → IsWellFormed (calls os c)
  unfolding calls
  calls-IsWellFormed [] c w = w
  calls-IsWellFormed (o ∷ os) c w = calls-IsWellFormed os (call o c) (call-IsWellFormed o c w)

  -- Whatever is called on a cache that could be constructed, it has a positive capacity, never
  -- more items than that, and no key twice.
  pub new_cache-IsWellFormed :
      (n : ℕ) (os : List (Call K V)) {c : LruCache K V}
      → new_cache n ≡ ok c
      → IsWellFormed (calls os c)
  unfolding new_cache
  new_cache-IsWellFormed zero os h = cc
  new_cache-IsWellFormed (suc n) os {c} h =
      let empty : IsWellFormed (record { capacity = suc n; entries = []; stats = no_stats }) =
        record { positive = omega arith; bounded = omega arith; distinct = tt } in
      let same : c ≡ record { capacity = suc n; entries = []; stats = no_stats } = ground arith in
      calls-IsWellFormed os c (rw same empty)

  find-set :
      (k : K) (v : V) (c : LruCache K V)
      → IsWellFormed c
      → find hash k (set hash k v c).entries ≡ some v
  unfolding set add
  find-set k v c w = elim (Option-cases (find hash k c.entries)) [
    | inr (old, e) ↦
        rw (e, set) (find-last hash k v (remove hash k c.entries) (find-removed hash k c.entries))
    | inl e ↦
        rw (e, set) (find-evict_last hash c.capacity c.stats.evictions k v c.entries w.positive e)
  ]

  get-found :
      (k : K) (v : V) (d : Option V) (c : LruCache K V)
      → find hash k c.entries ≡ some v
      → (get hash k d c).0 ≡ some v
  unfolding get
  get-found k v d c e = rw (e, get) refl

  -- In a well-formed cache, what was written last under a key is what `get` finds, whatever was
  -- evicted for it.
  pub get-set :
      (k : K) (v : V) (d : Option V) (c : LruCache K V)
      → IsWellFormed c
      → (get hash k d (set hash k v c)).0 ≡ some v
  get-set k v d c w = get-found k v d (set hash k v c) (find-set k v c w)

  -- A write of a new key to a full cache takes away the oldest item and nothing else, puts the new
  -- one at the end, and counts one eviction.
  pub set_full :
      (k i : K) (v u : V) (rest : List (K × V)) (c : LruCache K V)
      → c.entries ≡ (i, u) ∷ rest
      → length c.entries ≡ c.capacity
      → find hash k c.entries ≡ none
      → ((set hash k v c).entries ≡ rest ++ ((k, v) ∷ []))
        × ((set hash k v c).stats.evictions ≡ suc c.stats.evictions)
  unfolding set add
  set_full k i v u rest c e full new =
      let one =
        evict_one hash (i, u) (rest ++ ((k, v) ∷ [])) c.capacity c.stats.evictions
          (ground (arith, length-append rest ((k, v) ∷ []))) in
      rw (new, set) (ground (arith, one))
