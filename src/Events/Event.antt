-- ===== src/Events/Event.antt =====
-- `Event` of rann_agent/core/events.py and its dictionary.
use rann_agent.Prelude.{ℕ, String, ◌≡◌, Option, none, some, arith}
use rann_agent.Json.{
  Json, null, str, obj, Fields, end, field, get_field, opt_str, as_str, as_obj, IsoFormat,
}
use rann_agent.State.Record.{◌>>=◌}
use rann_agent.Events.Types.{
  EventType, type_value, type_from_value, type_from-value, EventStatus, started, status_value,
  status_from_value, status_from-value,
}

pub record Event : Type 0 where
  pub event_type : EventType
  pub run_id : String
  pub task_id : Option String
  pub timestamp : ℕ
  pub component : String
  pub status : EventStatus
  pub metadata : Fields

-- `data.get("task_id")`
abbrev task_id_of : Option Json → Option (Option String)
task_id_of none = some none
task_id_of (some null) = some none
task_id_of (some (str s)) = some (some s)
task_id_of (some _) = none

-- `data.get("component", "agent")`
abbrev component_of : Option Json → Option String
component_of none = some "agent"
component_of (some j) = as_str j

-- `EventStatus(data.get("status", "started"))`
abbrev status_of : Option Json → Option EventStatus
status_of none = some started
status_of (some j) = do t ← as_str j; status_from_value t

-- `data.get("metadata", {})`
abbrev metadata_of : Option Json → Option Fields
metadata_of none = some end
metadata_of (some j) = as_obj j

module _ (iso : IsoFormat) where
  open iso use {isoformat, fromisoformat, fromisoformat-isoformat}

  -- Event.to_dict
  unfoldable pub to_dict : Event → Json
  unfolding type_value status_value opt_str
  to_dict e = obj (
      field "event_type" (str (type_value e.event_type)) (
        field "run_id" (str e.run_id) (
          field "task_id" (opt_str e.task_id) (
            field "timestamp" (str (isoformat e.timestamp)) (
              field "component" (str e.component) (
                field "status" (str (status_value e.status))
                  (field "metadata" (obj e.metadata) end)))))))

  -- Event.from_dict
  unfoldable pub from_dict : Json → Option Event
  unfolding get_field as_str as_obj type_from_value status_from_value
  from_dict j = do
    fs ← as_obj j
    type_json ← get_field "event_type" fs
    type_text ← as_str type_json
    event_type ← type_from_value type_text
    run_json ← get_field "run_id" fs
    run_id ← as_str run_json
    task_id ← task_id_of (get_field "task_id" fs)
    time_json ← get_field "timestamp" fs
    time_text ← as_str time_json
    timestamp ← fromisoformat time_text
    component ← component_of (get_field "component" fs)
    status ← status_of (get_field "status" fs)
    metadata ← metadata_of (get_field "metadata" fs)
    some (record {
      event_type = event_type;
      run_id = run_id;
      task_id = task_id;
      timestamp = timestamp;
      component = component;
      status = status;
      metadata = metadata;
    })

  -- Every event is read back from its dictionary as it was.
  pub from_dict-to_dict : (e : Event) → from_dict (to_dict e) ≡ some e
  unfolding to_dict from_dict get_field as_str as_obj opt_str
  from_dict-to_dict e = ground (
    arith,
    type_from-value e.event_type,
    status_from-value e.status,
    fromisoformat-isoformat e.timestamp,
  )
