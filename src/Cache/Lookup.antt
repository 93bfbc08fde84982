-- ===== src/Cache/Lookup.antt =====
-- About `get` after `set`, of rann_agent/cache/memory.py.
use rann_agent.Prelude.{
  ℕ, ◌+◌, ◌<◌, String, ◌≡◌, ◌≢◌, refl, sym, false, Option, none, some, length, ltb, leb, arith,
  if◌then◌else◌, str_eq, eq_iff, eq_refl,
}
use rann_agent.Dict.{lookup, lookup-insert}
use rann_agent.Cache.Defs.{Cache, get_value, make_entry, get, set, make_room}

str_ne : (k j : String) → k ≢ j → str_eq k j ≡ false
str_ne k j h = ground (arith, eq_iff k j)

not_full : (n m : ℕ) → n < m → leb m n ≡ false
not_full n m h = ground arith

module _ {A : Type 0} where
  get_lem :
      (key : String) (now : ℕ) (c : Cache A)
      → (get key now c).0 ≡ get_value now (lookup key c.store)
  unfolding get
  get_lem key now c = ground arith

  -- A value that was set with an age is found until its time has passed, and then no more.
  pub get-set_self :
      (key : String) (v : A) (ttl now later at : ℕ) (c : Cache A)
      → (get key at (set key (some v) (some ttl) now later c)).0
        ≡ (if ltb (later + ttl) at then none else some v)
  unfolding set make_entry get_value
  get-set_self key v ttl now later at c = rw (get_lem, lookup-insert, eq_refl key) refl

  make_room_kept :
      (key : String) (now : ℕ) (c : Cache A) → length c.store < c.max_size → make_room key now c ≡ c
  unfolding make_room
  make_room_kept key now c room = rw (not_full (length c.store) c.max_size room) refl

  -- Where there is room, a `set` of one key does not change what `get` of another finds.
  pub get-set_ne :
      (key j : String) (value : Option A) (ttl : Option ℕ) (now later at : ℕ) (c : Cache A)
      → key ≢ j
      → length c.store < c.max_size
      → (get j at (set key value ttl now later c)).0 ≡ (get j at c).0
  unfolding set
  get-set_ne key j value ttl now later at c ne room =
      rw (get_lem, make_room_kept key now c room, lookup-insert, str_ne key j ne)
        (sym (get_lem j at c))
