-- ===== src/Budget/Limits.antt =====
-- About the limits of a run in rann_agent/core/budget.py, and the calls that the engine allows.
use rann_agent.Prelude.{ℕ, ◌+◌, ◌≤◌, ◌<◌, ◌≡◌, ◌↔◌, ◌⊎◌, true, Option, none, some, arith}
use rann_agent.Exec.{ok}
use rann_agent.Budget.Tracker.{
  Tracker, elapsed, tokens_remaining, time_remaining, model_calls_remaining, cost_remaining,
  is_exhausted,
}
use rann_agent.Budget.Engine.{
  Engine, Reason, model_call_answer, can_make_model_call, can_make_tool_call, record_model_call,
  record_tool_call,
}

-- No count is above its limit.
pub record IsWithin (t : Tracker) : Type 0 where
  pub tokens : t.tokens_used ≤ t.budget.max_tokens
  pub model_calls : t.model_calls ≤ t.budget.max_model_calls
  pub tool_calls : t.tool_calls ≤ t.budget.max_tool_calls
  pub cost : t.cost ≤ t.budget.max_cost
  pub turns : t.turns ≤ t.budget.max_turns

-- The tracker of an engine that has been started is within its limits.
abbrev pub AllWithin : Option Tracker → Type 0
AllWithin none = Unit
AllWithin (some t) = IsWithin t

-- What the estimates of a model call ask for: room for the tokens and the cost, a model call and
-- time left.
pub record HasRoom (estimated_tokens estimated_cost now : ℕ) (t : Tracker) : Type 0 where
  pub tokens : estimated_tokens + t.tokens_used ≤ t.budget.max_tokens
  pub model_calls : t.model_calls < t.budget.max_model_calls
  pub cost : estimated_cost + t.cost ≤ t.budget.max_cost
  pub time : now < t.start_time + t.budget.max_time

-- On a tracker within its limits and a clock that is not before its start, a model call is allowed
-- exactly when there is room for it.
pub model_call_answer_exact :
    (estimated_tokens estimated_cost now later : ℕ) (t : Tracker)
    → IsWithin t
    → t.start_time ≤ now
    → ((model_call_answer estimated_tokens estimated_cost now later t).0 ≡ true)
      ↔ HasRoom estimated_tokens estimated_cost now t
unfolding model_call_answer tokens_remaining model_calls_remaining cost_remaining time_remaining
    elapsed
model_call_answer_exact et ec now later t v s = (λ h. ground arith, λ h. ground arith)

-- A tracker is exhausted exactly when one of the six limits is reached.
pub is_exhausted_exact :
    (now : ℕ) (t : Tracker)
    → (is_exhausted now t ≡ true) ↔ (
        (t.budget.max_tokens ≤ t.tokens_used)
        ⊎ (t.budget.max_time ≤ elapsed now t)
        ⊎ (t.budget.max_tool_calls ≤ t.tool_calls)
        ⊎ (t.budget.max_model_calls ≤ t.model_calls)
        ⊎ (t.budget.max_cost ≤ t.cost)
        ⊎ (t.budget.max_turns ≤ t.turns))
unfolding is_exhausted
is_exhausted_exact now t = (λ h. ground arith, λ h. ground arith)

-- A model call that was allowed for estimates, and that used no more than them, leaves every count
-- within its limit.
pub record_model_call-IsWithin :
    (estimated_tokens estimated_cost now later input output cost_usd : ℕ) (r : Reason) (e : Engine)
    → AllWithin e.tracker
    → (can_make_model_call estimated_tokens estimated_cost now later e).0 ≡ ok (true, r)
    → input + output ≤ estimated_tokens
    → cost_usd ≤ estimated_cost
    → AllWithin (record_model_call input output cost_usd e).1.tracker
unfolding can_make_model_call record_model_call
record_model_call-IsWithin et ec now later input output cost_usd r e v h hi hc = ground arith

-- A tool call that was allowed leaves every count within its limit.
pub record_tool_call-IsWithin :
    (now later : ℕ) (r : Reason) (e : Engine)
    → AllWithin e.tracker
    → (can_make_tool_call now later e).0 ≡ ok (true, r)
    → AllWithin (record_tool_call e).1.tracker
unfolding can_make_tool_call record_tool_call
record_tool_call-IsWithin now later r e v h = ground arith
