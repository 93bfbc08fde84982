-- ===== src/Rollback/Types.antt =====
-- `RollbackType`, `RollbackStatus`, `FileSnapshot`, `RollbackStep` and `RollbackProcedure` of
-- rann_agent/core/rollback_engine.py, with their dictionaries. A `from_dict` that returns `none` stands
-- for the exception that it raises.
use rann_agent.Prelude.{
  ℕ, String, ◌≡◌, refl, Option, none, some, List, [], ◌∷◌, ◌++◌, length, str_eq, if◌then◌else◌,
}
use rann_agent.Json.{
  Json, null, num, str, arr, obj, Items, nil, cons, Fields, end, field, get_field, opt_str, as_str,
  as_obj, opt_str_of, fields_of, items_of, num_of, IsoFormat,
}
use rann_agent.State.Record.{◌>>=◌}

pub data RollbackType : Type 0 where
  file_snapshot file_delete command_reverse deployment_rollback directory_cleanup : RollbackType
  database_rollback git_revert environment_restore : RollbackType

-- `rollback_type.value`
unfoldable pub type_value : RollbackType → String
type_value file_snapshot = "file_snapshot"
type_value file_delete = "file_delete"
type_value command_reverse = "command_reverse"
type_value deployment_rollback = "deployment_rollback"
type_value directory_cleanup = "directory_cleanup"
type_value database_rollback = "database_rollback"
type_value git_revert = "git_revert"
type_value environment_restore = "environment_restore"

unfoldable pub type_from_value : String → Option RollbackType
type_from_value t =
    if str_eq t "file_snapshot"
    then some file_snapshot
    else if str_eq t "file_delete"
    then some file_delete
    else if str_eq t "command_reverse"
    then some command_reverse
    else if str_eq t "deployment_rollback"
    then some deployment_rollback
    else if str_eq t "directory_cleanup"
    then some directory_cleanup
    else if str_eq t "database_rollback"
    then some database_rollback
    else if str_eq t "git_revert"
    then some git_revert
    else if str_eq t "environment_restore"
    then some environment_restore
    else none

pub type_from-value : (t : RollbackType) → type_from_value (type_value t) ≡ some t
unfolding type_from_value type_value
type_from-value file_snapshot = refl
type_from-value _ = refl

pub data RollbackStatus : Type 0 where
  pending in_progress completed failed skipped : RollbackStatus

-- `status.value`
unfoldable pub status_value : RollbackStatus → String
status_value pending = "pending"
status_value in_progress = "in_progress"
status_value completed = "completed"
status_value failed = "failed"
status_value skipped = "skipped"

unfoldable pub status_from_value : String → Option RollbackStatus
status_from_value t =
    if str_eq t "pending"
    then some pending
    else if str_eq t "in_progress"
    then some in_progress
    else if str_eq t "completed"
    then some completed
    else if str_eq t "failed"
    then some failed
    else if str_eq t "skipped"
    then some skipped
    else none

pub status_from-value : (s : RollbackStatus) → status_from_value (status_value s) ≡ some s
unfolding status_from_value status_value
status_from-value pending = refl
status_from-value _ = refl

-- `content` is `none` for a file that did not exist, and for one that could not be read.
pub record FileSnapshot : Type 0 where
  pub path : String
  pub content : Option String
  pub checksum : Option String
  pub created_at : ℕ

pub record RollbackStep : Type 0 where
  pub step_id : String
  pub rollback_type : RollbackType
  pub target : String
  pub reverse_command : Option String
  pub snapshot : Option FileSnapshot
  pub metadata : Fields
  pub status : RollbackStatus
  pub error : Option String
  pub executed_at : Option ℕ

pub record RollbackProcedure : Type 0 where
  pub procedure_id : String
  pub run_id : String
  pub task_id : Option String
  pub created_at : ℕ
  pub completed_at : Option ℕ
  pub steps : List RollbackStep
  pub status : RollbackStatus
  pub error : Option String
  pub total_steps : ℕ
  pub completed_steps : ℕ

-- `RollbackProcedure.add_step`
unfoldable pub add_step : RollbackStep → RollbackProcedure → RollbackProcedure
add_step s p =
    let steps' = p.steps ++ s ∷ [] in record p { steps = steps'; total_steps = length steps' }

-- `RollbackStatus(data.get("status", "pending"))`
abbrev status_of : Option Json → Option RollbackStatus
status_of none = some pending
status_of (some j) = do t ← as_str j; status_from_value t

module _ (iso : IsoFormat) where
  open iso use {isoformat, fromisoformat, fromisoformat-isoformat}

  -- FileSnapshot.to_dict
  unfoldable pub snapshot_to_dict : FileSnapshot → Json
  unfolding opt_str
  snapshot_to_dict s = obj (
      field "path" (str s.path) (
        field "content" (opt_str s.content) (
          field "checksum" (opt_str s.checksum)
            (field "created_at" (str (isoformat s.created_at)) end))))

  -- FileSnapshot.from_dict
  unfoldable pub snapshot_from_dict : Fields → Option FileSnapshot
  unfolding get_field as_str
  snapshot_from_dict fs = do
    path_json ← get_field "path" fs
    path ← as_str path_json
    content ← opt_str_of (get_field "content" fs)
    checksum ← opt_str_of (get_field "checksum" fs)
    time_json ← get_field "created_at" fs
    time_text ← as_str time_json
    created_at ← fromisoformat time_text
    some (record { path = path; content = content; checksum = checksum; created_at = created_at })

  -- `x.isoformat() if x else None`, and back
  abbrev pub opt_time : Option ℕ → Json
  opt_time none = null
  opt_time (some t) = str (isoformat t)

  abbrev pub time_of : Option Json → Option (Option ℕ)
  time_of none = some none
  time_of (some null) = some none
  time_of (some (str s)) =
      if str_eq s "" then some none else (do t ← fromisoformat s; some (some t))
  time_of (some _) = none

  abbrev pub snapshot_json : Option FileSnapshot → Json
  snapshot_json none = null
  snapshot_json (some s) = snapshot_to_dict s

  -- `FileSnapshot.from_dict(data["snapshot"]) if data.get("snapshot") else None`
  abbrev pub snapshot_of : Option Json → Option (Option FileSnapshot)
  snapshot_of none = some none
  snapshot_of (some null) = some none
  snapshot_of (some (obj end)) = some none
  snapshot_of (some (obj (field k v fs))) = do s ← snapshot_from_dict (field k v fs); some (some s)
  snapshot_of (some _) = none

  -- RollbackStep.to_dict
  unfoldable pub step_to_dict : RollbackStep → Json
  unfolding opt_str type_value status_value snapshot_to_dict
  step_to_dict s = obj (
      field "step_id" (str s.step_id) (
        field "rollback_type" (str (type_value s.rollback_type)) (
          field "target" (str s.target) (
            field "reverse_command" (opt_str s.reverse_command) (
              field "snapshot" (snapshot_json s.snapshot) (
                field "metadata" (obj s.metadata) (
                  field "status" (str (status_value s.status)) (
                    field "error" (opt_str s.error)
                      (field "executed_at" (opt_time s.executed_at) end)))))))))

  -- RollbackStep.from_dict
  unfoldable pub step_from_dict : Json → Option RollbackStep
  unfolding get_field as_str as_obj type_from_value status_from_value snapshot_from_dict
  step_from_dict j = do
    fs ← as_obj j
    snapshot ← snapshot_of (get_field "snapshot" fs)
    id_json ← get_field "step_id" fs
    step_id ← as_str id_json
    type_json ← get_field "rollback_type" fs
    type_text ← as_str type_json
    rollback_type ← type_from_value type_text
    target_json ← get_field "target" fs
    target ← as_str target_json
    reverse_command ← opt_str_of (get_field "reverse_command" fs)
    metadata ← fields_of (get_field "metadata" fs)
    status ← status_of (get_field "status" fs)
    error ← opt_str_of (get_field "error" fs)
    executed_at ← time_of (get_field "executed_at" fs)
    some (record {
      step_id = step_id;
      rollback_type = rollback_type;
      target = target;
      reverse_command = reverse_command;
      snapshot = snapshot;
      metadata = metadata;
      status = status;
      error = error;
      executed_at = executed_at;
    })

  -- `[s.to_dict() for s in self.steps]`
  unfoldable pub steps_to_items : List RollbackStep → Items
  unfolding step_to_dict
  steps_to_items [] = nil
  steps_to_items (s ∷ ss) = cons (step_to_dict s) (steps_to_items ss)

  -- `[RollbackStep.from_dict(s) for s in data.get("steps", [])]`
  unfoldable pub steps_from_items : Items → Option (List RollbackStep)
  unfolding step_from_dict
  steps_from_items nil = some []
  steps_from_items (cons j js) = do s ← step_from_dict j; ss ← steps_from_items js; some (s ∷ ss)

  -- RollbackProcedure.to_dict
  unfoldable pub procedure_to_dict : RollbackProcedure → Json
  unfolding opt_str status_value steps_to_items
  procedure_to_dict p = obj (
      field "procedure_id" (str p.procedure_id) (
        field "run_id" (str p.run_id) (
          field "task_id" (opt_str p.task_id) (
            field "created_at" (str (isoformat p.created_at)) (
              field "completed_at" (opt_time p.completed_at) (
                field "steps" (arr (steps_to_items p.steps)) (
                  field "status" (str (status_value p.status)) (
                    field "error" (opt_str p.error) (
                      field "total_steps" (num p.total_steps)
                        (field "completed_steps" (num p.completed_steps) end))))))))))

  -- RollbackProcedure.from_dict
  unfoldable pub procedure_from_dict : Json → Option RollbackProcedure
  unfolding get_field as_str as_obj status_from_value steps_from_items
  procedure_from_dict j = do
    fs ← as_obj j
    id_json ← get_field "procedure_id" fs
    procedure_id ← as_str id_json
    run_json ← get_field "run_id" fs
    run_id ← as_str run_json
    task_id ← opt_str_of (get_field "task_id" fs)
    time_json ← get_field "created_at" fs
    time_text ← as_str time_json
    created_at ← fromisoformat time_text
    completed_at ← time_of (get_field "completed_at" fs)
    status ← status_of (get_field "status" fs)
    error ← opt_str_of (get_field "error" fs)
    total_steps ← num_of (get_field "total_steps" fs)
    completed_steps ← num_of (get_field "completed_steps" fs)
    items ← items_of (get_field "steps" fs)
    steps ← steps_from_items items
    some (record {
      procedure_id = procedure_id;
      run_id = run_id;
      task_id = task_id;
      created_at = created_at;
      completed_at = completed_at;
      steps = steps;
      status = status;
      error = error;
      total_steps = total_steps;
      completed_steps = completed_steps;
    })
