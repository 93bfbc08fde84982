-- ===== src/Cache/Bound.antt =====
-- About the size of the cache of rann_agent/cache/memory.py.
use rann_agent.Prelude.{
  ℕ, suc, ◌+◌, ◌-◌, ◌/◌, max, ◌≤◌, ◌<◌, String, ◌≡◌, refl, true, not, ◌&&◌, Option, List, [], ◌∷◌,
  length, take, leb, arith, Bool-cases, inl, inr, eq_refl, ap,
}
use rann_agent.Dict.{
  Dict, lookup, has_key, insert, delete, keys, length-insert, length-delete-le, length-delete-has,
}
use rann_agent.Cache.Defs.{
  Entry, Cache, make_entry, get, stale_keys, pop_all, evict_stale, evict_oldest, make_room, set,
  remove, clear, exists,
}

at_least_one : (n : ℕ) → (m : ℕ) × (max 1 n ≡ suc m)
at_least_one n = (max 1 n - 1, omega arith)

-- The number of entries is at most `max_size`, and that is not zero.
pub record Fits {A : Type 0} (c : Cache A) : Type 0 where
  pub room : 0 < c.max_size
  pub size : length c.store ≤ c.max_size

module _ {A : Type 0} where
  length-pop_all-le :
      (ks : List String) (c : Cache A) → length (pop_all ks c).store ≤ length c.store
  unfolding pop_all
  length-pop_all-le [] c = omega arith
  length-pop_all-le (k ∷ ks) c = omega (
    arith,
    length-delete-le k c.store,
    length-pop_all-le ks (record c { store = delete k c.store; evictions = c.evictions + 1 }),
  )

  max_size-pop_all : (ks : List String) (c : Cache A) → (pop_all ks c).max_size ≡ c.max_size
  unfolding pop_all
  max_size-pop_all [] c = refl
  max_size-pop_all (k ∷ ks) c = max_size-pop_all ks _

  has_first : (k : String) (e : Entry A) (d : Dict (Entry A)) → has_key k ((k, e) ∷ d) ≡ true
  unfolding has_key lookup
  has_first k e d = rw (eq_refl k) refl

  -- At least one entry goes, if there is one.
  pop_first :
      (n : ℕ) (c : Cache A) (k : String) (e : Entry A) (d : Dict (Entry A))
      → c.store ≡ (k, e) ∷ d
      → length (pop_all (take (suc n) (keys c.store)) c).store ≤ length d
  unfolding keys pop_all
  pop_first n c k e d h = rw h (
      omega (
        arith,
        length-delete-has k ((k, e) ∷ d) (has_first k e d),
        length-pop_all-le (take n (keys d))
            (record c { store = delete k ((k, e) ∷ d); evictions = c.evictions + 1 }),
      ))

  pop_oldest-lt :
      (c : Cache A) (d : Dict (Entry A)) (m : ℕ)
      → c.store ≡ d
      → Fits c
      → c.max_size ≤ length d
      → length (pop_all (take (suc m) (keys c.store)) c).store < c.max_size
  pop_oldest-lt c [] m e f h = absurd (omega (arith, f.room))
  pop_oldest-lt c ((k, x) ∷ d) m e f h =
      omega (arith, pop_first m c k x d e, f.size, ap (λ (z : Dict (Entry A)). length z) e)

  evict_oldest-lt :
      (c : Cache A)
      → Fits c
      → (length (evict_oldest c).store < c.max_size) × ((evict_oldest c).max_size ≡ c.max_size)
  unfolding evict_oldest
  evict_oldest-lt c f = elim (Bool-cases (leb c.max_size (length c.store))) [
    | inl full ↦
        let (m, e) = at_least_one (c.max_size / 10) in
        rw (full, e)
          (
            pop_oldest-lt c c.store m refl f (ground arith),
            max_size-pop_all (take (suc m) (keys c.store)) c,
          )
    | inr free ↦ rw free (ground arith, refl)
  ]

  evict_stale-Fits : (now : ℕ) (c : Cache A) → Fits c → Fits (evict_stale now 1 c)
  unfolding evict_stale
  evict_stale-Fits now c f =
      let ks = take 1 (stale_keys now c.store) in
      record {
        room = rw (max_size-pop_all ks c) f.room;
        size = omega (arith, max_size-pop_all ks c, length-pop_all-le ks c, f.size);
      }

  max_size-evict_stale : (now : ℕ) (c : Cache A) → (evict_stale now 1 c).max_size ≡ c.max_size
  unfolding evict_stale
  max_size-evict_stale now c = max_size-pop_all (take 1 (stale_keys now c.store)) c

  length-insert-le :
      (k : String) (v : Entry A) (d : Dict (Entry A)) → length (insert k v d) ≤ length d + 1
  length-insert-le k v d = ground (arith, length-insert k v d)

  set-Fits :
      (key : String) (value : Option A) (ttl : Option ℕ) (now later : ℕ) (c : Cache A)
      → Fits c
      → Fits (set key value ttl now later c)
  unfolding set make_room
  set-Fits key value ttl now later c f =
      elim (Bool-cases (leb c.max_size (length c.store) && not (has_key key c.store))) [
        | inl full ↦
            let c₁ = evict_stale now 1 c in
            let (lt, same) = evict_oldest-lt c₁ (evict_stale-Fits now c f) in
            rw full (record {
              room = omega (arith, same, max_size-evict_stale now c, f.room);
              size = omega (
                arith,
                lt,
                same,
                length-insert-le key (make_entry later value ttl) (evict_oldest c₁).store,
              );
            })
        | inr free ↦ rw free (record {
          room = f.room;
          size = ground (arith, length-insert key (make_entry later value ttl) c.store, f.size);
        })
      ]

-- A call of a method.
pub data Op (A : Type 0) : Type 0 where
  get_op : String → ℕ → Op A
  set_op : String → Option A → Option ℕ → (now later : ℕ) → Op A
  delete_op : String → Op A
  clear_op : Op A
  exists_op : String → ℕ → Op A

module _ {A : Type 0} where
  unfoldable pub step : Op A → Cache A → Cache A
  step (get_op key now) c = (get key now c).1
  step (set_op key value ttl now later) c = set key value ttl now later c
  step (delete_op key) c = (remove key c).1
  step clear_op c = clear c
  step (exists_op key now) c = (exists key now c).1

  unfoldable pub steps : List (Op A) → Cache A → Cache A
  steps [] c = c
  steps (o ∷ os) c = steps os (step o c)

  step-Fits : (o : Op A) (c : Cache A) → Fits c → Fits (step o c)
  unfolding step get remove clear exists
  step-Fits (get_op key now) c f = ground (arith, f.room, f.size, length-delete-le key c.store)
  step-Fits (set_op key value ttl now later) c f = set-Fits key value ttl now later c f
  step-Fits (delete_op key) c f = ground (arith, f.room, f.size, length-delete-le key c.store)
  step-Fits clear_op c f = ground (arith, f.room)
  step-Fits (exists_op key now) c f = ground (arith, f.room, f.size, length-delete-le key c.store)

  -- Whatever is done to a cache that is allowed at least one entry, it never holds more entries than
  -- it is allowed.
  pub steps-Fits : (os : List (Op A)) (c : Cache A) → Fits c → Fits (steps os c)
  unfolding steps
  steps-Fits [] c f = f
  steps-Fits (o ∷ os) c f = steps-Fits os (step o c) (step-Fits o c f)
