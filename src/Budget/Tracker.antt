-- ===== src/Budget/Tracker.antt =====
-- `Budget` and `BudgetTracker` of rann_agent/core/budget.py.
use rann_agent.Prelude.{ℕ, ◌-◌, ◌*◌, max, Bool, ◌||◌, String, List, [], ◌∷◌, leb, filterb}

-- The budget of a run; `warn_num / warn_den` is `warning_threshold`.
pub record Budget : Type 0 where
  pub max_tokens : ℕ
  pub max_time : ℕ
  pub max_tool_calls : ℕ
  pub max_model_calls : ℕ
  pub max_cost : ℕ
  pub max_turns : ℕ
  pub warn_num : ℕ
  pub warn_den : ℕ

abbrev pub second : ℕ
second = 1000000

abbrev pub dollar : ℕ
dollar = 1000000

-- Budget()
unfoldable pub default_budget : Budget
default_budget = record {
  max_tokens = 100000;
  max_time = 3600 * second;
  max_tool_calls = 100;
  max_model_calls = 50;
  max_cost = 10 * dollar;
  max_turns = 50;
  warn_num = 8;
  warn_den = 10;
}

pub record Tracker : Type 0 where
  pub budget : Budget
  pub start_time : ℕ
  pub tokens_used : ℕ
  pub model_calls : ℕ
  pub tool_calls : ℕ
  pub cost : ℕ
  pub turns : ℕ
  pub input_tokens : ℕ
  pub output_tokens : ℕ

-- BudgetTracker(budget=budget)
unfoldable pub new_tracker : Budget → ℕ → Tracker
new_tracker b now = record {
  budget = b;
  start_time = now;
  tokens_used = 0;
  model_calls = 0;
  tool_calls = 0;
  cost = 0;
  turns = 0;
  input_tokens = 0;
  output_tokens = 0;
}

-- The subtraction of ℕ stops at 0, as `max(0, …)` does.
unfoldable pub elapsed : ℕ → Tracker → ℕ
elapsed now t = now - t.start_time

unfoldable pub tokens_remaining : Tracker → ℕ
tokens_remaining t = t.budget.max_tokens - t.tokens_used

unfoldable pub time_remaining : ℕ → Tracker → ℕ
unfolding elapsed
time_remaining now t = t.budget.max_time - elapsed now t

unfoldable pub tool_calls_remaining : Tracker → ℕ
tool_calls_remaining t = t.budget.max_tool_calls - t.tool_calls

unfoldable pub model_calls_remaining : Tracker → ℕ
model_calls_remaining t = t.budget.max_model_calls - t.model_calls

unfoldable pub cost_remaining : Tracker → ℕ
cost_remaining t = t.budget.max_cost - t.cost

unfoldable pub turns_remaining : Tracker → ℕ
turns_remaining t = t.budget.max_turns - t.turns

unfoldable pub is_exhausted : ℕ → Tracker → Bool
unfolding tokens_remaining time_remaining tool_calls_remaining model_calls_remaining cost_remaining
    turns_remaining
is_exhausted now t =
    leb (tokens_remaining t) 0
    || leb (time_remaining now t) 0
    || leb (tool_calls_remaining t) 0
    || leb (model_calls_remaining t) 0
    || leb (cost_remaining t) 0
    || leb (turns_remaining t) 0

-- One entry of `get_limit_status`. `pct` is `of_limit / base`, and `base` is never 0.
pub record LimitStatus : Type 0 where
  pub key : String
  pub used : ℕ
  pub limit : ℕ
  pub remaining : ℕ
  pub of_limit : ℕ
  pub base : ℕ

-- An entry whose base is `max(1, limit)`, in units.
abbrev entry : String → ℕ → ℕ → ℕ → ℕ → ℕ → LimitStatus
entry key used limit remaining of_limit one = record {
  key = key;
  used = used;
  limit = limit;
  remaining = remaining;
  of_limit = of_limit;
  base = max one limit;
}

-- The clock is read three times: for the time used, the time left and the share.
pub record Readings : Type 0 where
  pub at_used : ℕ
  pub at_remaining : ℕ
  pub at_pct : ℕ

unfoldable pub get_limit_status : Readings → Tracker → List LimitStatus
unfolding elapsed tokens_remaining time_remaining tool_calls_remaining model_calls_remaining
    cost_remaining turns_remaining
get_limit_status r t =
    entry "tokens" t.tokens_used t.budget.max_tokens (tokens_remaining t) t.tokens_used 1
    ∷ entry "time" (elapsed r.at_used t) t.budget.max_time (time_remaining r.at_remaining t)
        (elapsed r.at_pct t) second
    ∷ entry "tool_calls" t.tool_calls t.budget.max_tool_calls (tool_calls_remaining t) t.tool_calls
        1
    ∷ entry "model_calls" t.model_calls t.budget.max_model_calls (model_calls_remaining t)
        t.model_calls 1
    ∷ entry "cost" t.cost t.budget.max_cost (cost_remaining t) t.cost dollar
    ∷ entry "turns" t.turns t.budget.max_turns (turns_remaining t) t.turns 1
    ∷ []

-- `data["pct"] >= warning_threshold`
unfoldable pub is_warning : Budget → LimitStatus → Bool
is_warning b e = leb (b.warn_num * e.base) (e.of_limit * b.warn_den)

-- The entries that `check_warnings` writes a text for, in the order of the texts.
unfoldable pub check_warnings : Readings → Tracker → List LimitStatus
check_warnings r t = filterb (is_warning t.budget) (get_limit_status r t)
