-- ===== src/Events/Types.antt =====
-- `EventType` and `EventStatus` of rann_agent/core/events.py.
use rann_agent.Prelude.{
  String, ◌≡◌, refl, Bool, true, false, Option, none, some, str_eq, if◌then◌else◌,
}

pub data EventType : Type 0 where
  run_created run_started context_built plan_created task_started model_requested model_responded
        tool_started tool_completed tool_failed observation_created verification_started
        verification_passed verification_failed recovery_started rollback_started checkpoint_created
        memory_retrieved memory_stored skill_updated task_completed task_failed run_completed
        state_changed error_occurred budget_updated :
      EventType

unfoldable pub type_value : EventType → String
type_value run_created = "run_created"
type_value run_started = "run_started"
type_value context_built = "context_built"
type_value plan_created = "plan_created"
type_value task_started = "task_started"
type_value model_requested = "model_requested"
type_value model_responded = "model_responded"
type_value tool_started = "tool_started"
type_value tool_completed = "tool_completed"
type_value tool_failed = "tool_failed"
type_value observation_created = "observation_created"
type_value verification_started = "verification_started"
type_value verification_passed = "verification_passed"
type_value verification_failed = "verification_failed"
type_value recovery_started = "recovery_started"
type_value rollback_started = "rollback_started"
type_value checkpoint_created = "checkpoint_created"
type_value memory_retrieved = "memory_retrieved"
type_value memory_stored = "memory_stored"
type_value skill_updated = "skill_updated"
type_value task_completed = "task_completed"
type_value task_failed = "task_failed"
type_value run_completed = "run_completed"
type_value state_changed = "state_changed"
type_value error_occurred = "error_occurred"
type_value budget_updated = "budget_updated"

-- `EventType(text)`; `none` is the `ValueError`.
unfoldable pub type_from_value : String → Option EventType
type_from_value t =
    if str_eq t "run_created"
    then some run_created
    else if str_eq t "run_started"
    then some run_started
    else if str_eq t "context_built"
    then some context_built
    else if str_eq t "plan_created"
    then some plan_created
    else if str_eq t "task_started"
    then some task_started
    else if str_eq t "model_requested"
    then some model_requested
    else if str_eq t "model_responded"
    then some model_responded
    else if str_eq t "tool_started"
    then some tool_started
    else if str_eq t "tool_completed"
    then some tool_completed
    else if str_eq t "tool_failed"
    then some tool_failed
    else if str_eq t "observation_created"
    then some observation_created
    else if str_eq t "verification_started"
    then some verification_started
    else if str_eq t "verification_passed"
    then some verification_passed
    else if str_eq t "verification_failed"
    then some verification_failed
    else if str_eq t "recovery_started"
    then some recovery_started
    else if str_eq t "rollback_started"
    then some rollback_started
    else if str_eq t "checkpoint_created"
    then some checkpoint_created
    else if str_eq t "memory_retrieved"
    then some memory_retrieved
    else if str_eq t "memory_stored"
    then some memory_stored
    else if str_eq t "skill_updated"
    then some skill_updated
    else if str_eq t "task_completed"
    then some task_completed
    else if str_eq t "task_failed"
    then some task_failed
    else if str_eq t "run_completed"
    then some run_completed
    else if str_eq t "state_changed"
    then some state_changed
    else if str_eq t "error_occurred"
    then some error_occurred
    else if str_eq t "budget_updated"
    then some budget_updated
    else none

pub type_from-value : (t : EventType) → type_from_value (type_value t) ≡ some t
unfolding type_from_value type_value
type_from-value run_created = refl
type_from-value _ = refl

-- `a == b` for members, which are told apart by their texts.
unfoldable pub type_eq : EventType → EventType → Bool
unfolding type_value
type_eq a b = str_eq (type_value a) (type_value b)

pub data EventStatus : Type 0 where
  started success failure skipped : EventStatus

unfoldable pub status_value : EventStatus → String
status_value started = "started"
status_value success = "success"
status_value failure = "failure"
status_value skipped = "skipped"

unfoldable pub status_from_value : String → Option EventStatus
status_from_value t =
    if str_eq t "started"
    then some started
    else if str_eq t "success"
    then some success
    else if str_eq t "failure"
    then some failure
    else if str_eq t "skipped"
    then some skipped
    else none

pub status_from-value : (t : EventStatus) → status_from_value (status_value t) ≡ some t
unfolding status_from_value status_value
status_from-value started = refl
status_from-value _ = refl

unfoldable pub status_eq : EventStatus → EventStatus → Bool
status_eq started started = true
status_eq success success = true
status_eq failure failure = true
status_eq skipped skipped = true
status_eq _ _ = false
