-- ===== src/Cache/Examples.antt =====
-- Runs of the cache, and its theorems at concrete caches.
use rann_agent.Prelude.{ℕ, String, ◌≡◌, ◌≢◌, refl, none, some, List, [], ◌∷◌, arith, eq_iff}
use rann_agent.Dict.{insert, keys, lookup, has_key}
use rann_agent.Cache.Defs.{
  Cache, new_cache, get, set, make_room, evict_stale, evict_oldest, make_entry,
}
use rann_agent.Cache.Bound.{Fits, Op, get_op, set_op, steps, step, steps-Fits}

abbrev small : Cache ℕ
unfolding new_cache
small = new_cache 2

abbrev script : List (Op ℕ)
script =
    set_op "a" (some 1) none 0 0
    ∷ set_op "b" (some 2) (some 5) 1 1
    ∷ set_op "c" (some 3) none 2 2
    ∷ get_op "a" 3
    ∷ []

steps-Fits_example : Fits (steps script small)
unfolding small
steps-Fits_example = steps-Fits script small (omega arith)

-- The third entry drives the oldest out.
oldest_goes : keys (steps script small).store ≡ "b" ∷ "c" ∷ []
unfolding steps step set make_room evict_stale evict_oldest make_entry get insert keys lookup
    has_key small
oldest_goes = refl

a_not_b : ◌≢◌ {A = String} "a" "b"
a_not_b = ground (arith, eq_iff "a" "b")
