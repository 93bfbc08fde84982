-- ===== src/Lifecycle/Examples.antt =====
-- Runs of the lifecycle, and its theorems at concrete runs.

use rann_agent.Prelude.{
  String, ◌≡◌, refl, Bool, true, false, none, some, List, [], ◌∷◌, if◌then◌else◌, length,
}
use rann_agent.Dict.{lookup, insert}
use rann_agent.Exec.{ok, err}
use rann_agent.Json.{end, str, num, field}
use rann_agent.Json.Sample.{unary}
use rann_agent.State.Values.{
  AgentState, analyzing, executing, verifying, completed, failed, context_ready, planning,
}
use rann_agent.State.Machine.{Moment, can_transition_to, transition, persist}
use rann_agent.Budget.Tracker.{Readings, new_tracker, default_budget}
use rann_agent.Budget.Engine.{start_run}
use rann_agent.Events.Types.{recovery_started, started, type_value}
use rann_agent.Events.Emitter.{event_of, create_event, emit, count_one}
use rann_agent.Lifecycle.Defs.{
  Lifecycle, Exception, body, Method, new_lifecycle, emit_created, budget_dict,
}
use rann_agent.Lifecycle.Methods.{
  RunTimes, run_open, run_close, run_block, run_failed, run, Strategy, attempt_recovery,
  transition_to,
}
use rann_agent.Lifecycle.Run.{error_at, run_body_raises, run_body_returns}
use rann_agent.Lifecycle.Recovery.{Outcome, attempt_recovery-Outcome}

abbrev text : Exception → String
text e = "error"

abbrev moment : Moment
moment = record { now = 1; since = 1; written = false }

abbrev times : RunTimes unary text
times = record {
  created = 1;
  opening = moment;
  budget_start = 2;
  started_at = 3;
  closing = moment;
  completed_at = 4;
  failing = moment;
  failed_at = 5;
}

abbrev fresh : Lifecycle
unfolding new_lifecycle
fresh = new_lifecycle "run-1" "goal" none true 0 none

program : Unit {0}
unfolding run_open run_close run_block run_failed run transition can_transition_to persist
    emit_created create_event emit event_of count_one lookup insert type_value start_run new_tracker
    default_budget fresh budget_dict
program = tt

-- The with body that does nothing.
abbrev idle_body : Method (Unit {0})
idle_body l = (ok tt, l)

abbrev bad_body : Method (Unit {0})
bad_body l = (err (body "boom"), l)

-- What the body of the `with` statement gets.
abbrev opened : Lifecycle
opened = (run_open unary text times fresh).1

run_completes : (run unary text times idle_body fresh).1.machine.state ≡ completed
unfolding program
run_completes = refl

-- A whole run of three events keeps six.
six_events : length (run unary text times idle_body fresh).1.events.events ≡ 6
unfolding program
six_events = refl

run_body_raises_example :
    ((run unary text times bad_body fresh).0 ≡ (
      if can_transition_to opened.machine failed
      then err (body "boom")
      else err (error_at unary text opened failed)))
    × ((run unary text times bad_body fresh).1.machine.state
        ≡ (if can_transition_to opened.machine failed then failed else opened.machine.state))
unfolding fresh
run_body_raises_example =
    run_body_raises unary text times bad_body fresh opened refl (body "boom") refl

opened-tracker : opened.engine.tracker ≡ some (new_tracker default_budget 2)
unfolding program
opened-tracker = refl

run_body_returns_example :
    ((run unary text times idle_body fresh).0 ≡ (
      if can_transition_to opened.machine completed
      then ok tt
      else if can_transition_to opened.machine failed
      then err (error_at unary text opened completed)
      else err (error_at unary text opened failed)))
    × ((run unary text times idle_body fresh).1.machine.state ≡ (
        if can_transition_to opened.machine completed
        then completed
        else if can_transition_to opened.machine failed
        then failed
        else opened.machine.state))
unfolding fresh
run_body_returns_example =
    run_body_returns unary text times idle_body fresh opened refl (new_tracker default_budget 2)
      refl opened-tracker

abbrev readings : Readings
readings = record { at_used = 40; at_remaining = 41; at_pct = 42 }

-- A run that has come to `VERIFYING`.
abbrev step : AgentState → Lifecycle → Lifecycle
step s l = (transition_to unary text moment 9 s none end l).1

abbrev verifying_run : Lifecycle
verifying_run =
    step verifying (step executing (step planning (step context_ready (step analyzing fresh))))

verifying_run-state : verifying_run.machine.state ≡ verifying
unfolding program transition_to
verifying_run-state = refl

abbrev silent : String → Lifecycle → Bool
silent s l = false

abbrev strategies : List (Strategy unary text)
strategies =
    record { name = "raise"; attempt = λ e l. (err (body "no"), l) }
    ∷ record { name = "retry"; attempt = λ e l. (ok true, l) }
    ∷ record { name = "unused"; attempt = λ e l. (ok true, l) }
    ∷ []

attempt_recovery-Outcome_example :
    Outcome unary text silent 7
      (body "boom")
      strategies
      (emit_created recovery_started started
        (field "error" (str "error") (field "strategy_count" (num 3) end))
        7
        fresh)
      (attempt_recovery unary text silent 7 (body "boom") strategies fresh)
attempt_recovery-Outcome_example =
    attempt_recovery-Outcome unary text silent 7 (body "boom") strategies fresh
