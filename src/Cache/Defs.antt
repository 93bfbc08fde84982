-- ===== src/Cache/Defs.antt =====
-- `TTLCacheMixin` of rann_agent/cache/backend.py and `InMemoryCache` of rann_agent/cache/memory.py.
-- Each method holds the lock from its first to its last statement, so methods do not interleave. A
-- value may be Python's `None`, which is `none`; times and ages are in whole seconds.
use rann_agent.Prelude.{
  ℕ, ◌+◌, ◌/◌, max, String, Bool, true, false, not, ◌&&◌, Option, none, some, List, [], ◌∷◌, length,
  take, ltb, leb, is_some, if◌then◌else◌,
}
use rann_agent.Dict.{Dict, lookup, has_key, insert, delete, keys}

-- What an entry holds, and the time after which it has expired.
abbrev pub Entry {ℓ} : Type ℓ → Type ℓ
Entry A = Option A × Option ℕ

module _ {ℓ} {A : Type ℓ} where
  -- `_is_expired` of an entry that is there
  unfoldable pub is_expired : ℕ → Entry A → Bool
  is_expired now (value, none) = false
  is_expired now (value, some expires_at) = ltb expires_at now

  -- `_make_entry`
  unfoldable pub make_entry : ℕ → Option A → Option ℕ → Entry A
  make_entry now value none = (value, none)
  make_entry now value (some ttl) = (value, some (now + ttl))

  -- `_get_value`
  unfoldable pub get_value : ℕ → Option (Entry A) → Option A
  get_value now none = none
  get_value now (some (value, none)) = value
  get_value now (some (value, some expires_at)) = if ltb expires_at now then none else value

pub record Cache (A : Type 0) : Type 0 where
  pub store : Dict (Entry A)
  pub max_size : ℕ
  pub hits : ℕ
  pub misses : ℕ
  pub evictions : ℕ

module _ {A : Type 0} where
  -- InMemoryCache(max_size=max_size)
  unfoldable pub new_cache : ℕ → Cache A
  new_cache max_size = record {
    store = [];
    max_size = max_size;
    hits = 0;
    misses = 0;
    evictions = 0;
  }

  unfoldable pub get : String → ℕ → Cache A → Option A × Cache A
  unfolding get_value lookup delete
  get key now c =
      let entry = lookup key c.store in
      let value = get_value now entry in
      if is_some value then (value, record c { hits = c.hits + 1 }) else (
        value,
        record c {
          misses = c.misses + 1;
          store = if is_some entry then delete key c.store else c.store;
        },
      )

  -- The keys of the expired entries, in order.
  unfoldable pub stale_keys : ℕ → Dict (Entry A) → List String
  unfolding is_expired
  stale_keys now [] = []
  stale_keys now ((k, e) ∷ d) =
      let rest = stale_keys now d in if is_expired now e then k ∷ rest else rest

  -- The loops that pop keys and count the evictions.
  unfoldable pub pop_all : List String → Cache A → Cache A
  unfolding delete
  pop_all [] c = c
  pop_all (k ∷ ks) c =
      pop_all ks (record c { store = delete k c.store; evictions = c.evictions + 1 })

  -- `_evict_stale`
  unfoldable pub evict_stale : ℕ → ℕ → Cache A → Cache A
  unfolding stale_keys pop_all
  evict_stale now count c = pop_all (take count (stale_keys now c.store)) c

  -- The removal of the oldest entries, where the cache is still full.
  unfoldable pub evict_oldest : Cache A → Cache A
  unfolding pop_all keys
  evict_oldest c =
      if leb c.max_size (length c.store)
      then pop_all (take (max 1 (c.max_size / 10)) (keys c.store)) c
      else c

  -- The room that `set` makes for a new key.
  unfoldable pub make_room : String → ℕ → Cache A → Cache A
  make_room key now c =
      if leb c.max_size (length c.store) && not (has_key key c.store)
      then evict_oldest (evict_stale now 1 c)
      else c

  -- `set`; the clock is read for the test of the entries and for the new entry.
  unfoldable pub set : String → Option A → Option ℕ → (now later : ℕ) → Cache A → Cache A
  set key value ttl now later c =
      let c' = make_room key now c in
      record c' { store = insert key (make_entry later value ttl) c'.store }

  unfoldable pub remove : String → Cache A → Bool × Cache A
  unfolding has_key delete
  remove key c =
      if has_key key c.store then (true, record c { store = delete key c.store }) else (false, c)

  unfoldable pub clear : Cache A → Cache A
  clear c = record c { store = []; hits = 0; misses = 0; evictions = 0 }

  abbrev exists_in : String → ℕ → Cache A → Option (Entry A) → Bool × Cache A
  exists_in key now c none = (false, c)
  exists_in key now c (some e) =
      if is_expired now e then (false, record c { store = delete key c.store }) else (true, c)

  unfoldable pub exists : String → ℕ → Cache A → Bool × Cache A
  unfolding is_expired lookup delete
  exists key now c = exists_in key now c (lookup key c.store)
