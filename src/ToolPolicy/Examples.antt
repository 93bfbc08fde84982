-- ===== src/ToolPolicy/Examples.antt =====
-- Decisions of the default policies, and the theorems at concrete calls.
use rann_agent.Prelude.{◌<◌, ◌≡◌, refl, ◌↔◌, inl, inr, true, false, none, some, arith}
use rann_agent.Dict.{lookup, insert}
use rann_agent.ToolPolicy.Defs.{
  Policy, Engine, safe, allow, new_policy, new_engine, count_of, check, check_policy, set_policy,
}
use rann_agent.ToolPolicy.Decision.{Permits, check_exact}

docker_denied : (check "docker" none none new_engine).allowed ≡ false
unfolding check check_policy new_engine lookup
docker_denied = refl

check_exact_example : ((check "git" (some "ann") none new_engine).allowed ≡ true) ↔ (
    (p : Policy) × (lookup "git" new_engine.policies ≡ some p)
    × Permits (some "ann") none (count_of (lookup "git" new_engine.call_counts)) p)
check_exact_example = check_exact "git" (some "ann") none new_engine

abbrev limited : Policy
unfolding new_policy
limited = record (new_policy "probe" safe allow) { max_calls_per_run = 2 }

abbrev engine : Engine
unfolding set_policy new_engine insert
engine = set_policy limited new_engine

limited-Permits : Permits (some "ann") none 0 limited
unfolding limited
limited-Permits = record {
  user_free = refl;
  context_free = refl;
  role = inl refl;
  calls_left = inr (omega arith);
  passes = refl;
}

limited_found : lookup "probe" engine.policies ≡ some limited
unfolding engine lookup
limited_found = refl

limited_positive : 0 < limited.max_calls_per_run
unfolding limited
limited_positive = omega arith
