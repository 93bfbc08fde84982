-- ===== src/Budget/Examples.antt =====
-- Runs of the budget engine, and its theorems at concrete figures.
use rann_agent.Prelude.{◌≡◌, refl, inl, true, none, List, [], ◌∷◌, In, arith}
use rann_agent.Exec.{ok}
use rann_agent.Budget.Tracker.{
  Tracker, Readings, default_budget, new_tracker, get_limit_status, is_warning, check_warnings,
}
use rann_agent.Budget.Engine.{
  Engine, engine_init, start_run, reason_ok, can_make_model_call, can_make_tool_call,
  record_model_call,
}
use rann_agent.Budget.Limits.{IsWithin, AllWithin, record_model_call-IsWithin}
use rann_agent.Budget.Account.{Use, model, tool, turn, use_all, TotalsIn, use_all-Totals}
use rann_agent.Budget.Warnings.{keys_of}

abbrev fresh : Tracker
unfolding new_tracker default_budget
fresh = new_tracker default_budget 10

abbrev idle : Engine
unfolding engine_init
idle = engine_init none

abbrev begun : Engine
unfolding start_run idle new_tracker default_budget
begun = start_run 10 idle

fresh-IsWithin : IsWithin fresh
unfolding fresh
fresh-IsWithin = omega arith

begun-IsWithin : AllWithin begun.tracker
unfolding begun
begun-IsWithin = omega arith

model_allowed : (can_make_model_call 500 20 30 31 begun).0 ≡ ok (true, reason_ok)
unfolding can_make_model_call begun
model_allowed = refl

record_model_call-IsWithin_example : AllWithin (record_model_call 300 150 15 begun).1.tracker
record_model_call-IsWithin_example =
    record_model_call-IsWithin 500 20 30 31 300 150 15 reason_ok begun begun-IsWithin model_allowed
      (omega arith) (omega arith)

tool_allowed : (can_make_tool_call 30 31 begun).0 ≡ ok (true, reason_ok)
unfolding can_make_tool_call begun
tool_allowed = refl

abbrev script : List Use
script = model 300 150 15 ∷ tool ∷ turn ∷ model 10 5 1 ∷ []

use_all-Totals_example :
    TotalsIn script (new_tracker idle.budget 10) (use_all script (start_run 10 idle)).tracker
use_all-Totals_example = use_all-Totals script 10 idle

abbrev readings : Readings
readings = record { at_used = 40; at_remaining = 41; at_pct = 42 }

abbrev used_up : Tracker
used_up = record fresh { turns = 45 }

turns_warned : In "turns" (keys_of (check_warnings readings used_up))
unfolding check_warnings get_limit_status is_warning fresh
turns_warned = inl refl
