-- ===== src/Budget/Engine.antt =====
-- `BudgetEngine` of rann_agent/core/budget.py. Its methods raise `RuntimeError` before `start_run`.
use rann_agent.Prelude.{
  ℕ, ◌+◌, Bool, true, false, Option, none, some, List, ltb, leb, if◌then◌else◌,
}
use rann_agent.Exec.{Result, ok, err, Exec}
use rann_agent.Budget.Tracker.{
  Budget, Tracker, Readings, LimitStatus, default_budget, new_tracker, tokens_remaining,
  time_remaining, tool_calls_remaining, model_calls_remaining, cost_remaining, is_exhausted,
  get_limit_status, check_warnings,
}

pub data RuntimeError : Type 0 where
  not_started : RuntimeError

pub record Engine : Type 0 where
  pub budget : Budget
  pub tracker : Option Tracker

-- BudgetEngine(budget)
unfoldable pub engine_init : Option Budget → Engine
unfolding default_budget
engine_init none = record { budget = default_budget; tracker = none }
engine_init (some b) = record { budget = b; tracker = none }

unfoldable pub start_run : ℕ → Engine → Engine
unfolding new_tracker
start_run now e = record e { tracker = some (new_tracker e.budget now) }

abbrev started : {A : Type 0} → (Tracker → A) → Option Tracker → Result RuntimeError A
started f none = err not_started
started f (some t) = ok (f t)

-- The property `tracker`, read to compute something.
abbrev pub with_tracker : {A : Type 0} → (Tracker → A) → Exec Engine RuntimeError A
with_tracker f e = (started f e.tracker, e)

abbrev update_in :
    (Tracker → Tracker) → Option Tracker → Engine → Result RuntimeError (Unit {0}) × Engine
update_in f none e = (err not_started, e)
update_in f (some t) e = (ok tt, record e { tracker = some (f t) })

-- The property `tracker`, changed in place.
abbrev pub change : (Tracker → Tracker) → Exec Engine RuntimeError Unit
change f e = update_in f e.tracker e

-- The reason beside an answer, with the figure that its text shows.
pub data Reason : Type 0 where
  token_budget model_call_budget tool_call_budget cost_budget time_budget : ℕ → Reason
  reason_ok : Reason

-- `now` and `later` are the readings of the clock for the test and for the text.
unfoldable pub model_call_answer :
    (estimated_tokens estimated_cost now later : ℕ) → Tracker → Bool × Reason
unfolding tokens_remaining model_calls_remaining cost_remaining time_remaining
model_call_answer estimated_tokens estimated_cost now later t =
    if ltb (tokens_remaining t) estimated_tokens
    then (false, token_budget (tokens_remaining t))
    else if leb (model_calls_remaining t) 0
    then (false, model_call_budget (model_calls_remaining t))
    else if ltb (cost_remaining t) estimated_cost
    then (false, cost_budget (cost_remaining t))
    else if leb (time_remaining now t) 0
    then (false, time_budget (time_remaining later t))
    else (true, reason_ok)

unfoldable pub can_make_model_call :
    (estimated_tokens estimated_cost now later : ℕ) → Exec Engine RuntimeError (Bool × Reason)
unfolding model_call_answer
can_make_model_call estimated_tokens estimated_cost now later =
    with_tracker (model_call_answer estimated_tokens estimated_cost now later)

unfoldable pub tool_call_answer : (now later : ℕ) → Tracker → Bool × Reason
unfolding tool_calls_remaining time_remaining
tool_call_answer now later t =
    if leb (tool_calls_remaining t) 0
    then (false, tool_call_budget (tool_calls_remaining t))
    else if leb (time_remaining now t) 0
    then (false, time_budget (time_remaining later t))
    else (true, reason_ok)

unfoldable pub can_make_tool_call : (now later : ℕ) → Exec Engine RuntimeError (Bool × Reason)
unfolding tool_call_answer
can_make_tool_call now later = with_tracker (tool_call_answer now later)

unfoldable pub count_model_call : (input_tokens output_tokens cost_usd : ℕ) → Tracker → Tracker
count_model_call input_tokens output_tokens cost_usd t = record t {
  model_calls = t.model_calls + 1;
  input_tokens = t.input_tokens + input_tokens;
  output_tokens = t.output_tokens + output_tokens;
  tokens_used = t.tokens_used + (input_tokens + output_tokens);
  cost = t.cost + cost_usd;
}

unfoldable pub record_model_call :
    (input_tokens output_tokens cost_usd : ℕ) → Exec Engine RuntimeError Unit
unfolding count_model_call
record_model_call input_tokens output_tokens cost_usd =
    change (count_model_call input_tokens output_tokens cost_usd)

unfoldable pub record_tool_call : Exec Engine RuntimeError Unit
record_tool_call = change (λ t. record t { tool_calls = t.tool_calls + 1 })

unfoldable pub record_turn : Exec Engine RuntimeError Unit
record_turn = change (λ t. record t { turns = t.turns + 1 })

pub record Status : Type 0 where
  pub budget : Budget
  pub tracker : List LimitStatus
  pub warnings : List LimitStatus
  pub exhausted : Bool

-- `get_status`; `none` is `{"status": "not_started"}`. The clock is read for the entries, for the
-- warnings and for the last answer.
abbrev status_of : (r r' : Readings) (now : ℕ) → Engine → Option Tracker → Option Status
status_of r r' now e none = none
status_of r r' now e (some t) = some (record {
  budget = e.budget;
  tracker = get_limit_status r t;
  warnings = check_warnings r' t;
  exhausted = is_exhausted now t;
})

unfoldable pub get_status : (r r' : Readings) (now : ℕ) → Engine → Option Status
unfolding get_limit_status check_warnings is_exhausted
get_status r r' now e = status_of r r' now e e.tracker
