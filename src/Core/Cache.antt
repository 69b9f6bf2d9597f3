-- ===== src/Core/Cache.antt =====
-- core/cache.py: the bounded LRU cache. The lock makes each method one step; the ordered dict is the
-- list of its items, oldest first.
pub mod Entries
pub mod Laws
use network.Prelude.{
  ℕ, zero, suc, ◌≡◌, ◌↔◌, Bool, true, false, Option, none, some, List, [], ◌∷◌, ◌++◌, ltb, length,
  if◌then◌else◌,
}
use network.Core.Failures.{Result, ok, err, value_error}

-- What a dict relies on: an equality test on keys that decides equality.
pub record Hashable (K : Type 0) : Type 0 where
  pub same : K → K → Bool
  pub same_iff : (a b : K) → (same a b ≡ true) ↔ (a ≡ b)

pub record CacheStats : Type 0 where
  pub hits : ℕ
  pub misses : ℕ
  pub evictions : ℕ
  pub size : ℕ

pub record LruCache (K V : Type 0) : Type 0 where
  pub capacity : ℕ
  pub entries : List (K × V)
  pub stats : CacheStats

abbrev pub no_stats : CacheStats
no_stats = record { hits = 0; misses = 0; evictions = 0; size = 0 }

-- `LRUCache.__init__`
unfoldable pub new_cache : {K V : Type 0} → ℕ → Result (LruCache K V)
new_cache zero = err (value_error "capacity must be positive")
new_cache (suc n) = ok (record { capacity = suc n; entries = []; stats = no_stats })

module _ {K V : Type 0} where
  -- The loop of `set`: the oldest item is taken while there are too many.
  unfoldable pub evict : ℕ → List (K × V) → ℕ → List (K × V) × ℕ
  evict cap [] evicted = ([], evicted)
  evict cap (e ∷ es) evicted =
      let fewer = evict cap es (suc evicted) in
      if ltb cap (length (e ∷ es)) then fewer else (e ∷ es, evicted)

  unfoldable pub clear : LruCache K V → LruCache K V
  clear c = record c { entries = []; stats = no_stats }

  -- `stats`: the size is written, and a copy returned
  unfoldable pub read_stats : LruCache K V → CacheStats × LruCache K V
  read_stats c = let s = record (c.stats) { size = length c.entries } in (s, record c { stats = s })

module _ {K V : Type 0} (hash : Hashable K) where
  open hash use {same}

  unfoldable pub find : K → List (K × V) → Option V
  find k [] = none
  find k ((j, v) ∷ es) = if same j k then some v else find k es

  unfoldable pub remove : K → List (K × V) → List (K × V)
  remove k [] = []
  remove k ((j, v) ∷ es) = let rest = remove k es in if same j k then rest else (j, v) ∷ rest

  -- `move_to_end`, with the value that is kept under the key
  abbrev pub at_end : K → V → LruCache K V → List (K × V)
  at_end k v c = remove k c.entries ++ ((k, v) ∷ [])

  unfoldable pub get : K → Option V → LruCache K V → Option V × LruCache K V
  get k default c = elim (find k c.entries) [
    | none ↦ (default, record c { stats = record (c.stats) { misses = suc c.stats.misses } })
    | some v ↦ (
      some v,
      record c { entries = at_end k v c; stats = record (c.stats) { hits = suc c.stats.hits } },
    )
  ]

  -- `set` of a key that is not there
  unfoldable pub add : K → V → LruCache K V → LruCache K V
  add k v c =
      let grown = c.entries ++ ((k, v) ∷ []) in
      let (kept, evicted) = evict c.capacity grown c.stats.evictions in
      record c {
        entries = kept;
        stats = record (c.stats) { size = length grown; evictions = evicted };
      }

  unfoldable pub set : K → V → LruCache K V → LruCache K V
  set k v c = elim (find k c.entries) [
    | some old ↦ record c { entries = at_end k v c }
    | none ↦ add k v c
  ]

  unfoldable pub delete : K → LruCache K V → Bool × LruCache K V
  delete k c = elim (find k c.entries) [
    | some v ↦ (true, record c { entries = remove k c.entries })
    | none ↦ (false, c)
  ]
