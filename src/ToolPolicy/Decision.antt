-- ===== src/ToolPolicy/Decision.antt =====
-- About `check` of rann_agent/orchestration/tool_policy.py.
use rann_agent.Prelude.{
  ℕ, zero, suc, ◌+◌, ◌<◌, String, ◌≡◌, refl, ◌↔◌, ◌⊎◌, inl, inr, true, false, Option, some, eq_refl,
  ltb, arith, Option-cases,
}
use rann_agent.Dict.{lookup, lookup-insert}
use rann_agent.ToolPolicy.Defs.{
  Policy, Engine, count_of, contains, given_in, given, is_empty, user_role, lets_through,
  check_policy, check, record_call, reset_counts,
}

-- What a policy asks for: the user and the context are not blocked, the role is among the allowed
-- ones where a user and roles are given, calls are left where they are limited, and the default
-- action lets calls through.
pub record Permits (user context : Option String) (current : ℕ) (p : Policy) : Type 0 where
  pub user_free : given_in user p.blocked_users ≡ false
  pub context_free : given_in context p.blocked_contexts ≡ false
  pub role :
      (is_empty p.allowed_roles ≡ true)
      ⊎ (given user ≡ false)
      ⊎ (contains user_role p.allowed_roles ≡ true)
  pub calls_left : (p.max_calls_per_run ≡ 0) ⊎ (current < p.max_calls_per_run)
  pub passes : lets_through p.default_action ≡ true

check_policy_exact :
    (user context : Option String) (current : ℕ) (p : Policy)
    → ((check_policy user context current p).allowed ≡ true) ↔ Permits user context current p
unfolding check_policy
check_policy_exact user context current p = (λ h. ground arith, λ h. ground arith)

-- A call is allowed exactly if the tool has a policy that permits it, after the calls counted so far.
pub check_exact :
    (tool : String) (user context : Option String) (e : Engine)
    → ((check tool user context e).allowed ≡ true) ↔ (
        (p : Policy) × (lookup tool e.policies ≡ some p)
        × Permits user context (count_of (lookup tool e.call_counts)) p)
unfolding check
check_exact tool user context e = elim (Option-cases (lookup tool e.policies)) [
  | inl none_there ↦ (λ h. cc, λ (p, q, h). cc)
  | inr (p, there) ↦ (
    λ h. (p, there, (check_policy_exact user context _ p).0 (rw there at h)),
    λ (q, found, permits). rw found ((check_policy_exact user context _ q).1 permits),
  )
]

-- A number of recorded calls of one tool.
unfoldable pub record_calls : ℕ → String → Engine → Engine
record_calls zero tool e = e
record_calls (suc n) tool e = record_calls n tool (record_call tool e)

policies-record_calls :
    (n : ℕ) (tool : String) (e : Engine) → (record_calls n tool e).policies ≡ e.policies
unfolding record_calls record_call
policies-record_calls zero tool e = refl
policies-record_calls (suc n) tool e = policies-record_calls n tool _

count-record_call :
    (tool : String) (e : Engine)
    → count_of (lookup tool (record_call tool e).call_counts)
      ≡ count_of (lookup tool e.call_counts) + 1
unfolding record_call
count-record_call tool e = rw (lookup-insert, eq_refl tool) refl

count-record_calls :
    (n : ℕ) (tool : String) (e : Engine)
    → count_of (lookup tool (record_calls n tool e).call_counts)
      ≡ count_of (lookup tool e.call_counts) + n
unfolding record_calls
count-record_calls zero tool e = omega arith
count-record_calls (suc n) tool e =
    omega (arith, count-record_calls n tool (record_call tool e), count-record_call tool e)

allowed_while :
    (user context : Option String) (n : ℕ) (p : Policy)
    → 0 < p.max_calls_per_run
    → Permits user context 0 p
    → (check_policy user context n p).allowed ≡ ltb n p.max_calls_per_run
unfolding check_policy
allowed_while user context n p h k = ground arith

-- Where a tool has a limit, and its policy permits the first call after the counts were reset, a call
-- is allowed after `n` recorded ones exactly while `n` is below the limit.
pub check-record_calls :
    (n : ℕ) (tool : String) (user context : Option String) (e : Engine) (p : Policy)
    → lookup tool e.policies ≡ some p
    → 0 < p.max_calls_per_run
    → Permits user context 0 p
    → (check tool user context (record_calls n tool (reset_counts e))).allowed
      ≡ ltb n p.max_calls_per_run
unfolding check reset_counts lookup
check-record_calls n tool user context e p there h k =
    rw (policies-record_calls n tool (reset_counts e), there, counted)
      (allowed_while user context n p h k)
  where
    counted : count_of (lookup tool (record_calls n tool (reset_counts e)).call_counts) ≡ n
    counted = omega (arith, count-record_calls n tool (reset_counts e))
