-- ===== src/Lifecycle/Defs.antt =====
-- `AgentLifecycle` of rann_agent/core/lifecycle.py: the object, its exceptions and the calls that
-- its methods are made of. A method changes the object and may raise.
use rann_agent.Prelude.{ℕ, String, Bool, false, Option, none, some, List, [], ◌∷◌}
use rann_agent.Exec.{Result, ok, err, Exec}
use rann_agent.Json.{Json, num, arr, Items, nil, cons, Fields, end, field}
use rann_agent.State.Values.{AgentState, queued}
use rann_agent.State.Machine.{Machine, StateTransitionError, init}
use rann_agent.Budget.Tracker.{Budget, LimitStatus}
use rann_agent.Budget.Engine.{Engine, RuntimeError, Status, engine_init}
use rann_agent.Events.Types.{EventType, EventStatus}
use rann_agent.Events.Emitter.{Emitter, new_emitter, create_event, emit}

-- The exceptions that pass through the methods. `body` is one that the caller's own code raises.
pub data Exception : Type 0 where
  state_transition : StateTransitionError → Exception
  state_machine : StateTransitionError → Exception
  budget_exceeded : List LimitStatus → Exception
  runtime : RuntimeError → Exception
  body : String → Exception

-- What `checkpoint` keeps.
pub record Checkpoint : Type 0 where
  pub state : String
  pub goal : String
  pub budget : Option Status
  pub events : Items
  pub payload : Fields

-- A call of one of the callbacks, which are the client's code. That of a recovery may raise; the others
-- are taken to return.
pub data Callback : Type 0 where
  on_state_change : AgentState → Option String → Fields → Callback
  on_budget_warning : List LimitStatus → Callback
  on_recovery : String → Callback

-- The three flags say which callbacks are set, and `called` which calls of them were made.
pub record Lifecycle : Type 0 where
  pub run_id : String
  pub goal : String
  pub machine : Machine
  pub events : Emitter
  pub engine : Engine
  pub checkpoint_data : Option Checkpoint
  pub state_change_set : Bool
  pub budget_warning_set : Bool
  pub recovery_set : Bool
  pub called : List Callback

abbrev pub Method : Type 0 → Type 0
Method A = Exec Lifecycle Exception A

-- AgentLifecycle(run_id, goal, budget, store_events), at the time `now`
unfoldable pub new_lifecycle : String → String → Option Budget → Bool → ℕ → Option Json → Lifecycle
unfolding init new_emitter engine_init
new_lifecycle run_id goal budget store_events now file = record {
  run_id = run_id;
  goal = goal;
  machine = init run_id queued now file;
  events = new_emitter run_id store_events;
  engine = engine_init budget;
  checkpoint_data = none;
  state_change_set = false;
  budget_warning_set = false;
  recovery_set = false;
  called = [];
}

abbrev map_err : {E F A : Type 0} → (E → F) → Result E A → Result F A
map_err f (ok a) = ok a
map_err f (err e) = err (f e)

-- A call on the state machine, the exception under the name `wrap`.
abbrev pub on_machine :
    {A : Type 0}
    → (StateTransitionError → Exception)
    → Exec Machine StateTransitionError A
    → Method A
on_machine wrap m l =
    let (r, machine) = m l.machine in (map_err wrap r, record l { machine = machine })

-- A call on the budget engine.
abbrev pub on_engine : {A : Type 0} → Exec Engine RuntimeError A → Method A
on_engine m l = let (r, engine) = m l.engine in (map_err runtime r, record l { engine = engine })

-- `self.events.emit(self.events.create_event(...))`, which the methods use for every event. The
-- event's time is `now`.
unfoldable pub emit_created : EventType → EventStatus → Fields → ℕ → Lifecycle → Lifecycle
emit_created event_type status metadata now l =
    let (event, events) = create_event event_type "agent" none status metadata now l.events in
    record l { events = emit event events }

-- `budget.__dict__`
unfoldable pub budget_dict : Budget → Fields
budget_dict b = field "max_tokens" (num b.max_tokens) (
    field "max_time_seconds" (num b.max_time) (
      field "max_tool_calls" (num b.max_tool_calls) (
        field "max_model_calls" (num b.max_model_calls) (
          field "max_cost_usd" (num b.max_cost) (
            field "max_turns" (num b.max_turns) (
              field "warning_threshold" (arr (cons (num b.warn_num) (cons (num b.warn_den) nil)))
                end))))))

module _ {ℓ} {A : Type ℓ} where
  -- `xs[-2]`, if there are two
  unfoldable pub second_last : List A → Option A
  second_last [] = none
  second_last (x ∷ []) = none
  second_last (x ∷ y ∷ []) = some x
  second_last (x ∷ y ∷ z ∷ zs) = second_last (y ∷ z ∷ zs)
