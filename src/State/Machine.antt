-- ===== src/State/Machine.antt =====
-- `AgentStateMachine` of rann_agent/core/state.py.
use rann_agent.Prelude.{
  ℕ, String, Bool, true, false, not, ◌&&◌, Option, none, some, List, [], ◌∷◌, ◌++◌, if◌then◌else◌,
}
use rann_agent.Exec.{ok, err, Exec}
use rann_agent.Json.{Json, Fields, end, IsoFormat}
use rann_agent.State.Values.{
  AgentState, queued, terminal_states, valid_transitions, in_states, state_eq,
}
use rann_agent.State.Record.{
  StateTransitionRecord, PersistedState, persisted_to_dict, persisted_from_dict, history_to_items,
  history_from_items,
}

-- StateTransitionError
pub record StateTransitionError : Type 0 where
  pub current : AgentState
  pub target : AgentState

-- AgentStateMachine. `file` is the content of the state file, if there is one: `json.loads` gives
-- back what `json.dumps` was given.
pub record Machine : Type 0 where
  pub run_id : String
  pub state : AgentState
  pub history : List StateTransitionRecord
  pub state_since : ℕ
  pub file : Option Json

-- What the outside world answers while one transition runs: the two readings of the clock, and
-- whether `json.dumps` and the write of the file succeed.
pub record Moment : Type 0 where
  pub now : ℕ
  pub since : ℕ
  pub written : Bool

-- AgentStateMachine(run_id, initial_state)
unfoldable pub init : String → AgentState → ℕ → Option Json → Machine
init run_id initial_state now file = record {
  run_id = run_id;
  state = initial_state;
  history = [];
  state_since = now;
  file = file;
}

unfoldable pub is_terminal : Machine → Bool
unfolding in_states terminal_states
is_terminal m = in_states m.state terminal_states

unfoldable pub is_running : Machine → Bool
unfolding in_states terminal_states state_eq
is_running m = not (in_states m.state terminal_states) && not (state_eq m.state queued)

unfoldable pub can_transition_to : Machine → AgentState → Bool
unfolding in_states valid_transitions
can_transition_to m target = in_states target (valid_transitions m.state)

-- The record that `transition` makes.
abbrev pub record_of : Machine → AgentState → Option String → Fields → ℕ → StateTransitionRecord
record_of m target reason metadata now = record {
  from_state = m.state;
  to_state = target;
  timestamp = now;
  reason = reason;
  metadata = metadata;
}

module _ (iso : IsoFormat) where
  -- `_persist`. A failure is logged and swallowed, and the file stays what it was.
  unfoldable pub persist : Bool → Machine → Machine
  unfolding persisted_to_dict history_to_items
  persist written m =
      if written
      then record m {
        file = some (
            persisted_to_dict iso (record {
              run_id = m.run_id;
              state = m.state;
              state_since = m.state_since;
              history = history_to_items iso m.history;
              metadata = end;
            }));
      }
      else m

  -- `transition`
  unfoldable pub transition :
      Moment
      → AgentState
      → Option String
      → Fields
      → Exec Machine StateTransitionError StateTransitionRecord
  transition w target reason metadata m =
      if not (can_transition_to m target)
      then (err (record { current = m.state; target = target }), m)
      else (let entry = record_of m target reason metadata w.now in
          (
            ok entry,
            persist w.written (record m {
              state = target;
              history = m.history ++ entry ∷ [];
              state_since = w.since;
            }),
          ))

  -- The rest of `load`, once the document has been read: the state and its time are assigned before
  -- the records of the history are converted, and a record that cannot be converted makes it fail.
  unfoldable pub load_history :
      Option (List StateTransitionRecord) → Machine → PersistedState → Machine × Bool
  load_history none m p = (record m { state = p.state; state_since = p.state_since }, false)
  load_history (some h) m p =
      (record m { state = p.state; state_since = p.state_since; history = h }, true)

  unfoldable pub load_document : Option PersistedState → Machine → Machine × Bool
  unfolding load_history history_from_items
  load_document none m = (m, false)
  load_document (some p) m = load_history (history_from_items iso p.history) m p

  unfoldable pub load_file : Option Json → Machine → Machine × Bool
  unfolding load_document persisted_from_dict
  load_file none m = (m, false)
  load_file (some j) m = load_document (persisted_from_dict iso j) m

  -- `load`
  unfoldable pub load : Machine → Machine × Bool
  unfolding load_file
  load m = load_file m.file m

-- `clear_persistence`; `removed` says whether `unlink` succeeds.
unfoldable pub clear_persistence : Bool → Machine → Machine
clear_persistence removed m = if removed then record m { file = none } else m
