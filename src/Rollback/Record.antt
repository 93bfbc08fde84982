-- ===== src/Rollback/Record.antt =====
-- The snapshots, the recording of steps and the procedures of `RollbackEngine`,
-- rann_agent/core/rollback_engine.py. `now` is the time that the method reads.
use rann_agent.Prelude.{ℕ, ◌+◌, String, Option, none, some, [], length}
use rann_agent.Dict.{Dict, lookup, insert}
use rann_agent.Json.{Fields, end, field, opt_str}
use rann_agent.Rollback.Types.{
  RollbackType, file_snapshot, file_delete, command_reverse, deployment_rollback, directory_cleanup,
  pending, FileSnapshot, RollbackStep, RollbackProcedure, add_step,
}
use rann_agent.Rollback.World.{FileState, text, unreadable, World, System}

pub record Engine : Type 0 where
  pub run_id : String
  pub current : Option RollbackProcedure
  pub snapshots : Dict FileSnapshot

-- RollbackEngine(run_id)
unfoldable pub new_engine : String → Engine
new_engine run_id = record { run_id = run_id; current = none; snapshots = [] }

-- `begin_procedure`; the id is new.
unfoldable pub begin_procedure : String → Option String → ℕ → Engine → Engine
begin_procedure procedure_id task_id now e = record e {
  current = some (record {
    procedure_id = procedure_id;
    run_id = e.run_id;
    task_id = task_id;
    created_at = now;
    completed_at = none;
    steps = [];
    status = pending;
    error = none;
    total_steps = 0;
    completed_steps = 0;
  });
}

-- The number in `rb_{n}`.
abbrev pub next_number : Option RollbackProcedure → ℕ
next_number none = 1
next_number (some p) = length p.steps + 1

-- `if self._current_procedure: self._current_procedure.add_step(step)`
abbrev pub add_to : RollbackStep → Option RollbackProcedure → Option RollbackProcedure
add_to s none = none
add_to s (some p) = some (add_step s p)

abbrev pub keep_step : RollbackStep → Engine → RollbackStep × Engine
keep_step s e = (s, record e { current = add_to s e.current })

-- A step that is about to be recorded; `rb` writes the number of its id.
abbrev pub new_step :
    (ℕ → String)
    → RollbackType
    → String
    → Option String
    → Option FileSnapshot
    → Fields
    → Engine
    → RollbackStep
new_step rb rollback_type target reverse_command snapshot metadata e = record {
  step_id = rb (next_number e.current);
  rollback_type = rollback_type;
  target = target;
  reverse_command = reverse_command;
  snapshot = snapshot;
  metadata = metadata;
  status = pending;
  error = none;
  executed_at = none;
}

module _ (sys : System) (rb : ℕ → String) where
  -- The content and the checksum of the file as it is found: neither where there is no file, and
  -- neither where it cannot be read.
  abbrev pub read_found : Option FileState → Option String × Option String
  read_found none = (none, none)
  read_found (some (text content)) = (some content, some (sys.hash content))
  read_found (some unreadable) = (none, none)

  abbrev pub snapshot_at : String → ℕ → World → FileSnapshot
  snapshot_at path now w =
      let (content, checksum) = read_found (lookup path w.files) in
      record { path = path; content = content; checksum = checksum; created_at = now }

  -- `snapshot_file`
  unfoldable pub snapshot_file : String → ℕ → World → Engine → FileSnapshot × Engine
  unfolding lookup insert
  snapshot_file file_path now w e =
      let s = snapshot_at (sys.resolve file_path) now w in
      (s, record e { snapshots = insert (sys.resolve file_path) s e.snapshots })

  -- `record_file_modification`
  unfoldable pub record_file_modification :
      String → Option String → ℕ → World → Engine → RollbackStep × Engine
  unfolding snapshot_file add_step
  record_file_modification file_path reverse_command now w e =
      let (s, e') = snapshot_file file_path now w e in
      keep_step (new_step rb file_snapshot (sys.resolve file_path) reverse_command (some s) end e')
        e'

  -- `record_file_deletion`
  unfoldable pub record_file_deletion : String → String → ℕ → Engine → RollbackStep × Engine
  unfolding add_step
  record_file_deletion file_path original_content now e =
      let s : FileSnapshot = record {
        path = sys.resolve file_path;
        content = some original_content;
        checksum = some (sys.hash original_content);
        created_at = now;
      } in
      keep_step (new_step rb file_delete (sys.resolve file_path) none (some s) end e) e

  -- `record_command_execution`
  unfoldable pub record_command_execution : String → Option String → Engine → RollbackStep × Engine
  unfolding add_step
  record_command_execution command reverse_command e =
      keep_step (new_step rb command_reverse command reverse_command none end e) e

  -- `record_deployment_rollback`
  unfoldable pub record_deployment_rollback :
      String → Option String → Engine → RollbackStep × Engine
  unfolding add_step opt_str
  record_deployment_rollback deployment_id target_version e =
      keep_step
        (new_step rb deployment_rollback deployment_id target_version none
          (field "target_version" (opt_str target_version) end) e)
        e

  -- `record_directory_cleanup`
  unfoldable pub record_directory_cleanup : String → Engine → RollbackStep × Engine
  unfolding add_step
  record_directory_cleanup dir_path e =
      keep_step (new_step rb directory_cleanup (sys.resolve dir_path) none none end e) e

  -- `get_snapshot`
  unfoldable pub get_snapshot : String → Engine → Option FileSnapshot
  unfolding lookup
  get_snapshot file_path e = lookup (sys.resolve file_path) e.snapshots

-- `clear_snapshots`
unfoldable pub clear_snapshots : Engine → Engine
clear_snapshots e = record e { snapshots = [] }
