-- ===== src/Events/Examples.antt =====
-- Runs of the emitter, and its theorems at concrete events.
use rann_agent.Prelude.{◌≡◌, refl, true, none, some, [], ◌∷◌, length}
use rann_agent.Dict.{lookup}
use rann_agent.Json.{end}
use rann_agent.Events.Types.{run_started, tool_failed, failure, success, type_value}
use rann_agent.Events.Event.{Event}
use rann_agent.Events.Emitter.{Emitter, new_emitter, or_zero, get_events, emit}
use rann_agent.Events.Counts.{emit_all, emit_all-counted}

abbrev began : Event
began = record {
  event_type = run_started;
  run_id = "run-1";
  task_id = none;
  timestamp = 4;
  component = "agent";
  status = success;
  metadata = end;
}

abbrev broke : Event
broke = record {
  event_type = tool_failed;
  run_id = "run-1";
  task_id = some "t";
  timestamp = 6;
  component = "tools";
  status = failure;
  metadata = end;
}

abbrev emitter : Emitter
emitter = emit_all (began ∷ broke ∷ began ∷ []) (new_emitter "run-2" true)

emit_all-counted_example :
    or_zero (lookup (type_value run_started) emitter.event_counts)
    ≡ length (get_events (some run_started) none none emitter)
emit_all-counted_example = emit_all-counted "run-2" (began ∷ broke ∷ began ∷ []) run_started

started_twice : length (get_events (some run_started) none none emitter) ≡ 2
unfolding get_events emit_all emit new_emitter type_value
started_twice = refl
