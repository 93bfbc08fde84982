-- ===== src/Events/Emitter.antt =====
-- `EventEmitter` of rann_agent/core/events.py. Its writes to the log are left out.
use rann_agent.Prelude.{
  ℕ, ◌+◌, String, Bool, Option, none, some, List, [], ◌∷◌, ◌++◌, str_eq, filterb, length,
  if◌then◌else◌,
}
use rann_agent.Dict.{Dict, lookup, insert}
use rann_agent.Json.{Items, nil, cons, Fields, IsoFormat}
use rann_agent.Events.Types.{
  EventType, type_value, type_eq, EventStatus, started, success, failure, skipped, status_eq,
}
use rann_agent.Events.Event.{Event, to_dict}

-- `event_counts` has the text of a type for its key.
pub record Emitter : Type 0 where
  pub run_id : String
  pub store_events : Bool
  pub events : List Event
  pub event_counts : Dict ℕ

-- EventEmitter(run_id, store_events)
unfoldable pub new_emitter : String → Bool → Emitter
new_emitter run_id store_events = record {
  run_id = run_id;
  store_events = store_events;
  events = [];
  event_counts = [];
}

-- `d.get(k, 0)`
abbrev pub or_zero : Option ℕ → ℕ
or_zero none = 0
or_zero (some n) = n

-- `self._event_counts[t] = self._event_counts.get(t, 0) + 1`
unfoldable pub count_one : String → Dict ℕ → Dict ℕ
count_one k d = insert k (or_zero (lookup k d) + 1) d

unfoldable pub emit : Event → Emitter → Emitter
emit event e =
    let own = record event { run_id = e.run_id } in
    record e {
      event_counts = count_one (type_value event.event_type) e.event_counts;
      events = if e.store_events then e.events ++ own ∷ [] else e.events;
    }

-- The event that `create_event` makes at the time `now`.
unfoldable pub event_of :
    EventType → String → Option String → EventStatus → Fields → ℕ → Emitter → Event
event_of event_type component task_id status metadata now e = record {
  event_type = event_type;
  run_id = e.run_id;
  task_id = task_id;
  timestamp = now;
  component = component;
  status = status;
  metadata = metadata;
}

-- `create_event`, which emits the event that it returns.
unfoldable pub create_event :
    EventType → String → Option String → EventStatus → Fields → ℕ → Emitter → Event × Emitter
unfolding event_of emit
create_event event_type component task_id status metadata now e =
    let event = event_of event_type component task_id status metadata now e in (event, emit event e)

abbrev by_type : Option EventType → List Event → List Event
by_type none es = es
by_type (some t) es = filterb (λ e. type_eq e.event_type t) es

-- An empty text is as good as none.
abbrev by_component : Option String → List Event → List Event
by_component none es = es
by_component (some c) es = if str_eq c "" then es else filterb (λ e. str_eq e.component c) es

abbrev by_status : Option EventStatus → List Event → List Event
by_status none es = es
by_status (some s) es = filterb (λ e. status_eq e.status s) es

unfoldable pub get_events :
    Option EventType → Option String → Option EventStatus → Emitter → List Event
unfolding type_eq status_eq
get_events event_type component status e =
    by_status status (by_component component (by_type event_type e.events))

-- `get_trace`
unfoldable pub trace_items : IsoFormat → List Event → Items
unfolding to_dict
trace_items iso [] = nil
trace_items iso (e ∷ es) = cons (to_dict iso e) (trace_items iso es)

unfoldable pub get_trace : IsoFormat → Emitter → Items
unfolding trace_items
get_trace iso e = trace_items iso e.events

pub record Summary : Type 0 where
  pub run_id : String
  pub total_events : ℕ
  pub event_counts : Dict ℕ
  pub success : ℕ
  pub failure : ℕ
  pub started : ℕ
  pub skipped : ℕ

unfoldable pub get_summary : Emitter → Summary
unfolding get_events
get_summary e = record {
  run_id = e.run_id;
  total_events = length e.events;
  event_counts = e.event_counts;
  success = length (get_events none none (some success) e);
  failure = length (get_events none none (some failure) e);
  started = length (get_events none none (some started) e);
  skipped = length (get_events none none (some skipped) e);
}
