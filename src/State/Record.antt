-- ===== src/State/Record.antt =====
-- `StateTransitionRecord` and `PersistedState` of rann_agent/core/state.py, with their
-- dictionaries. A `from_dict` that returns `none` stands for the exception that it raises.
use rann_agent.Prelude.{ℕ, String, Option, none, some, List, [], ◌∷◌}
use rann_agent.Json.{
  Json, null, str, arr, obj, Items, nil, cons, Fields, end, field, get_field, opt_str, as_str,
  as_obj, IsoFormat,
}
use rann_agent.State.Values.{AgentState, value, from_value}

infixl 5 ◌>>=◌
abbrev pub ◌>>=◌ {ℓ κ} : {A : Type ℓ} {B : Type κ} → Option A → (A → Option B) → Option B
none >>= f = none
some a >>= f = f a

-- The timestamp is in microseconds.
pub record StateTransitionRecord : Type 0 where
  pub from_state : AgentState
  pub to_state : AgentState
  pub timestamp : ℕ
  pub reason : Option String
  pub metadata : Fields

-- `data.get("reason")` with `str | None` for its values
abbrev reason_of : Option Json → Option (Option String)
reason_of none = some none
reason_of (some null) = some none
reason_of (some (str s)) = some (some s)
reason_of (some _) = none

-- `data.get("metadata", {})`
abbrev metadata_of : Option Json → Option Fields
metadata_of none = some end
metadata_of (some (obj fs)) = some fs
metadata_of (some _) = none

-- `data.get("history", [])`
abbrev history_of : Option Json → Option Items
history_of none = some nil
history_of (some (arr xs)) = some xs
history_of (some _) = none

pub record PersistedState : Type 0 where
  pub run_id : String
  pub state : AgentState
  pub state_since : ℕ
  pub history : Items
  pub metadata : Fields

module _ (iso : IsoFormat) where
  open iso use {isoformat, fromisoformat, fromisoformat-isoformat}

  -- StateTransitionRecord.to_dict
  unfoldable pub record_to_dict : StateTransitionRecord → Json
  unfolding value opt_str
  record_to_dict r = obj (
      field "from_state" (str (value r.from_state)) (
        field "to_state" (str (value r.to_state)) (
          field "timestamp" (str (isoformat r.timestamp))
            (field "reason" (opt_str r.reason) (field "metadata" (obj r.metadata) end)))))

  -- StateTransitionRecord.from_dict
  unfoldable pub record_from_dict : Json → Option StateTransitionRecord
  unfolding from_value get_field as_str as_obj
  record_from_dict j = do
    fs ← as_obj j
    from_json ← get_field "from_state" fs
    from_text ← as_str from_json
    from_state ← from_value from_text
    to_json ← get_field "to_state" fs
    to_text ← as_str to_json
    to_state ← from_value to_text
    time_json ← get_field "timestamp" fs
    time_text ← as_str time_json
    timestamp ← fromisoformat time_text
    reason ← reason_of (get_field "reason" fs)
    metadata ← metadata_of (get_field "metadata" fs)
    some (record {
      from_state = from_state;
      to_state = to_state;
      timestamp = timestamp;
      reason = reason;
      metadata = metadata;
    })

  -- PersistedState.to_dict
  unfoldable pub persisted_to_dict : PersistedState → Json
  unfolding value
  persisted_to_dict p = obj (
      field "run_id" (str p.run_id) (
        field "state" (str (value p.state)) (
          field "state_since" (str (isoformat p.state_since))
            (field "history" (arr p.history) (field "metadata" (obj p.metadata) end)))))

  -- PersistedState.from_dict
  unfoldable pub persisted_from_dict : Json → Option PersistedState
  unfolding from_value get_field as_str as_obj
  persisted_from_dict j = do
    fs ← as_obj j
    run_json ← get_field "run_id" fs
    run_id ← as_str run_json
    state_json ← get_field "state" fs
    state_text ← as_str state_json
    state ← from_value state_text
    since_json ← get_field "state_since" fs
    since_text ← as_str since_json
    state_since ← fromisoformat since_text
    history ← history_of (get_field "history" fs)
    metadata ← metadata_of (get_field "metadata" fs)
    some (record {
      run_id = run_id;
      state = state;
      state_since = state_since;
      history = history;
      metadata = metadata;
    })

  -- `[r.to_dict() for r in history]`
  unfoldable pub history_to_items : List StateTransitionRecord → Items
  unfolding record_to_dict
  history_to_items [] = nil
  history_to_items (r ∷ rs) = cons (record_to_dict r) (history_to_items rs)

  -- `[StateTransitionRecord.from_dict(h) for h in history]`
  unfoldable pub history_from_items : Items → Option (List StateTransitionRecord)
  unfolding record_from_dict
  history_from_items nil = some []
  history_from_items (cons j js) = do
    r ← record_from_dict j
    rs ← history_from_items js
    some (r ∷ rs)
