-- ===== src/State/Examples.antt =====
-- Runs of the state machine, and its theorems at concrete machines.
use rann_agent.Prelude.{◌≡◌, refl, ◌≢◌, ◌↔◌, true, false, none, List, [], ◌∷◌}
use rann_agent.Json.{null, nil, cons, end}
use rann_agent.Json.Sample.{unary}
use rann_agent.State.Values.{
  AgentState, queued, analyzing, context_ready, planning, executing, cancelled,
}
use rann_agent.State.Record.{PersistedState, history_from_items}
use rann_agent.State.Machine.{
  Machine, Moment, init, is_terminal, can_transition_to, transition, load, persist,
}
use rann_agent.State.Transition.{Attempt, Linked, attempts, attempts-Linked, is_terminal_exact}
use rann_agent.State.Reach.{call, attempts-ne-cancelled, attempts_can_end}
use rann_agent.State.Restore.{restart, load-transition}

abbrev fresh : Machine
unfolding init
fresh = init "run-1" queued 5 none

abbrev written_at : Moment
written_at = record { now = 7; since = 8; written = true }

abbrev calls : List Attempt
calls = call analyzing ∷ call executing ∷ call context_ready ∷ call planning ∷ []

state_after : (attempts unary calls fresh).state ≡ planning
unfolding attempts transition can_transition_to persist fresh
state_after = refl

attempts-Linked_example :
    Linked queued (attempts unary calls fresh).history (attempts unary calls fresh).state
unfolding init
attempts-Linked_example = attempts-Linked unary queued calls fresh refl

is_terminal_exact_example : (is_terminal fresh ≡ true) ↔ (
    ((t : AgentState) → can_transition_to fresh t ≡ false)
    × ((l : List Attempt) → attempts unary l fresh ≡ fresh))
is_terminal_exact_example = is_terminal_exact unary fresh

queued-ne-cancelled : queued ≢ cancelled
queued-ne-cancelled e = cc

attempts-ne-cancelled_example :
    (attempts unary calls (init "run-1" queued 5 none)).state ≢ cancelled
attempts-ne-cancelled_example =
    attempts-ne-cancelled unary "run-1" queued 5 none calls queued-ne-cancelled

attempts_can_end_example : (l : List Attempt) × (is_terminal (attempts unary l fresh) ≡ true)
attempts_can_end_example = attempts_can_end unary fresh

fresh_can : can_transition_to fresh analyzing ≡ true
unfolding can_transition_to init
fresh_can = refl

load-transition_example :
    load unary (restart unary queued 9 (transition unary written_at analyzing none end fresh).1)
    ≡ ((transition unary written_at analyzing none end fresh).1, true)
load-transition_example =
    load-transition unary written_at analyzing none end fresh queued 9 fresh_can refl

abbrev damaged : PersistedState
damaged = record {
  run_id = "run-1";
  state = executing;
  state_since = 3;
  history = cons null nil;
  metadata = end;
}

damaged-none : history_from_items unary damaged.history ≡ none
unfolding history_from_items
damaged-none = refl
