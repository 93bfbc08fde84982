-- ===== src/SharedContext/Vector.antt =====
-- `VersionVector` of rann_agent/orchestration/shared_context.py.
use rann_agent.Prelude.{
  ℕ, ◌+◌, max, String, Bool, true, false, Option, none, some, List, [], ◌∷◌, ◌++◌, ltb,
  if◌then◌else◌,
}
use rann_agent.Dict.{Dict, lookup, insert, keys}

abbrev pub Vector : Type 0
Vector = Dict ℕ

abbrev pub or_zero : Option ℕ → ℕ
or_zero none = 0
or_zero (some n) = n

-- `get`
unfoldable pub count_of : String → Vector → ℕ
unfolding lookup
count_of agent_id v = or_zero (lookup agent_id v)

-- `increment`
unfoldable pub increment : String → Vector → Vector
unfolding insert count_of
increment agent_id v = insert agent_id (count_of agent_id v + 1) v

-- `merge`: `self` takes the larger of the two counts for each agent of `other`.
unfoldable pub merge : Vector → Vector → Vector
unfolding insert count_of
merge v [] = v
merge v ((k, n) ∷ other) = merge (insert k (max (count_of k v) n) v) other

-- The loop of `happened_before` over the agents.
unfoldable pub compare_all : Vector → Vector → List String → Bool → Bool
unfolding count_of
compare_all v other [] dominated = dominated
compare_all v other (k ∷ ks) dominated =
    if ltb (count_of k other) (count_of k v)
    then false
    else compare_all v other ks (if ltb (count_of k v) (count_of k other) then true else dominated)

-- `happened_before`
unfoldable pub happened_before : Vector → Vector → Bool
unfolding compare_all keys
happened_before v other = compare_all v other (keys v ++ keys other) false
