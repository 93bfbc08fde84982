-- ===== src/Budget/Account.antt =====
-- About the figures of a tracker of rann_agent/core/budget.py after recorded calls.
use rann_agent.Prelude.{
  ℕ, ◌+◌, ◌≡◌, refl, ap, ◌∙◌, subst, sym, Option, none, some, List, [], ◌∷◌, arith,
}
use rann_agent.Exec.{err}
use rann_agent.Budget.Tracker.{Tracker, Readings, new_tracker}
use rann_agent.Budget.Engine.{
  Engine, not_started, can_make_model_call, can_make_tool_call, count_model_call, record_model_call,
  record_tool_call, record_turn, start_run, get_status,
}

-- The calls that change the figures.
pub data Use : Type 0 where
  model : (input output cost : ℕ) → Use
  tool : Use
  turn : Use

unfoldable pub use_one : Use → Engine → Engine
unfolding record_model_call record_tool_call record_turn
use_one (model input output cost) e = (record_model_call input output cost e).1
use_one tool e = (record_tool_call e).1
use_one turn e = (record_turn e).1

unfoldable pub use_all : List Use → Engine → Engine
use_all [] e = e
use_all (u ∷ us) e = use_all us (use_one u e)

abbrev pub sum_of : (Use → ℕ) → List Use → ℕ
sum_of f [] = 0
sum_of f (u ∷ us) = f u + sum_of f us

abbrev pub inputs : Use → ℕ
inputs (model input output cost) = input
inputs _ = 0

abbrev pub outputs : Use → ℕ
outputs (model input output cost) = output
outputs _ = 0

abbrev pub costs : Use → ℕ
costs (model input output cost) = cost
costs _ = 0

abbrev pub models : Use → ℕ
models (model input output cost) = 1
models _ = 0

abbrev pub tools : Use → ℕ
tools tool = 1
tools _ = 0

abbrev pub turns_of : Use → ℕ
turns_of turn = 1
turns_of _ = 0

-- The figures of `t` are those of `s` and the totals over the calls.
pub record Totals (us : List Use) (s t : Tracker) : Type 0 where
  pub same_budget : t.budget ≡ s.budget
  pub same_start : t.start_time ≡ s.start_time
  pub input : t.input_tokens ≡ s.input_tokens + sum_of inputs us
  pub output : t.output_tokens ≡ s.output_tokens + sum_of outputs us
  pub tokens : t.tokens_used ≡ s.tokens_used + sum_of inputs us + sum_of outputs us
  pub cost : t.cost ≡ s.cost + sum_of costs us
  pub model_calls : t.model_calls ≡ s.model_calls + sum_of models us
  pub tool_calls : t.tool_calls ≡ s.tool_calls + sum_of tools us
  pub turns : t.turns ≡ s.turns + sum_of turns_of us

-- The tracker of an engine is there, with these totals.
abbrev pub TotalsIn : List Use → Tracker → Option Tracker → Type 0
TotalsIn us s none = ⊥
TotalsIn us s (some t) = Totals us s t

abbrev pub step_of : Use → Tracker → Tracker
step_of (model input output cost) t = count_model_call input output cost t
step_of tool t = record t { tool_calls = t.tool_calls + 1 }
step_of turn t = record t { turns = t.turns + 1 }

use_one_lem :
    (u : Use) (e : Engine) (s : Tracker)
    → e.tracker ≡ some s
    → use_one u e ≡ record e { tracker = some (step_of u s) }
unfolding use_one
use_one_lem (model input output cost) e s h = ground arith
use_one_lem tool e s h = ground arith
use_one_lem turn e s h = ground arith

Totals-cons :
    (u : Use) (us : List Use) (s t : Tracker) → Totals us (step_of u s) t → Totals (u ∷ us) s t
unfolding count_model_call
Totals-cons (model input output cost) us s t h = ground arith
Totals-cons tool us s t h = ground arith
Totals-cons turn us s t h = ground arith

Totals-nil : (s : Tracker) → Totals [] s s
Totals-nil s = ground arith

TotalsIn-cons :
    (u : Use) (us : List Use) (s : Tracker) (o : Option Tracker)
    → TotalsIn us (step_of u s) o
    → TotalsIn (u ∷ us) s o
TotalsIn-cons u us s none h = h
TotalsIn-cons u us s (some t) h = Totals-cons u us s t h

totals_from :
    (us : List Use) (e : Engine) (s : Tracker)
    → e.tracker ≡ some s
    → TotalsIn us s (use_all us e).tracker
unfolding use_all
totals_from [] e s h = rw h (Totals-nil s)
totals_from (u ∷ us) e s h =
    subst (λ x. TotalsIn (u ∷ us) s (use_all us x).tracker) (sym (use_one_lem u e s h))
      (TotalsIn-cons u us s _ (totals_from us (record e { tracker = some (step_of u s) }) _ refl))

-- After `start_run` and any recorded calls the tracker holds exactly their totals: the tokens are
-- the input and output tokens of the model calls together, and each count is the number of its calls.
pub use_all-Totals :
    (us : List Use) (now : ℕ) (e : Engine)
    → TotalsIn us (new_tracker e.budget now) (use_all us (start_run now e)).tracker
unfolding start_run
use_all-Totals us now e = totals_from us (start_run now e) (new_tracker e.budget now) refl

use_one-none : (u : Use) (e : Engine) → e.tracker ≡ none → use_one u e ≡ e
unfolding use_one
use_one-none (model input output cost) e h = ground arith
use_one-none tool e h = ground arith
use_one-none turn e h = ground arith

unchanged : (us : List Use) (e : Engine) → e.tracker ≡ none → use_all us e ≡ e
unfolding use_all
unchanged [] e h = refl
unchanged (u ∷ us) e h = ap (use_all us) (use_one-none u e h) ∙ unchanged us e h

-- Before `start_run` every method that needs the tracker raises, nothing is recorded, and the status
-- says that the engine was not started.
pub unstarted :
    (e : Engine) (us : List Use) (a b c now later : ℕ) (r r' : Readings)
    → e.tracker ≡ none
    → (use_all us e ≡ e)
      × (record_model_call a b c e ≡ (err not_started, e))
      × (record_tool_call e ≡ (err not_started, e))
      × (record_turn e ≡ (err not_started, e))
      × (can_make_model_call a b now later e ≡ (err not_started, e))
      × (can_make_tool_call now later e ≡ (err not_started, e))
      × (get_status r r' now e ≡ none)
unfolding record_model_call record_tool_call record_turn can_make_model_call can_make_tool_call
    get_status
unstarted e us a b c now later r r' h = (unchanged us e h, rw h, rw h, rw h, rw h, rw h, rw h)
