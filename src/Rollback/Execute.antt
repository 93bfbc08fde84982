-- ===== src/Rollback/Execute.antt =====
-- The execution of procedures by `RollbackEngine`, rann_agent/core/rollback_engine.py. A step that a
-- handler gets has already been marked as in progress.
use rann_agent.Prelude.{
  zero, suc, ℕ, ◌+◌, String, Bool, true, false, ◌||◌, Option, none, some, List, [], ◌∷◌, length,
  filterb, str_eq, if◌then◌else◌,
}
use rann_agent.Exec.{Result, ok, err, Exec, pure, raise, modify, ◌>>◌}
use rann_agent.Dict.{has_key, insert, delete}
use rann_agent.Json.{Json, null, str, obj, Fields, end, field, get_field}
use rann_agent.Rollback.Types.{
  RollbackType, file_snapshot, file_delete, command_reverse, deployment_rollback, directory_cleanup,
  database_rollback, git_revert, environment_restore, RollbackStatus, pending, in_progress,
  completed, failed, skipped, FileSnapshot, RollbackStep, RollbackProcedure,
}
use rann_agent.Rollback.World.{Command, returned, raised, World, System, write_text, unlink}
use rann_agent.Rollback.Record.{Engine}

unfoldable pub status_is : RollbackStatus → RollbackStatus → Bool
status_is pending pending = true
status_is in_progress in_progress = true
status_is completed completed = true
status_is failed failed = true
status_is skipped skipped = true
status_is _ _ = false

abbrev pub ended : RollbackStatus → RollbackStep → RollbackStep
ended status s = record s { status = status }

-- The answer of a handler: whether it succeeded, and the step as it left it.
abbrev pub Handler : Type 0
Handler = Exec World String (Bool × RollbackStep)

abbrev pub failing : String → RollbackStep → RollbackStep
failing e s = record s { error = some e; status = failed }

abbrev pub after_command :
    (String → String) → RollbackStep → Command × World → Result String (Bool × RollbackStep) × World
after_command failure step (returned zero stderr, w) = (ok (true, ended completed step), w)
after_command failure step (returned (suc n) stderr, w) =
    (ok (false, failing (failure stderr) step), w)
after_command failure step (raised e, w) = (err e, w)

abbrev pub after_rmtree :
    RollbackStep → Option String × World → Result String (Bool × RollbackStep) × World
after_rmtree step (none, w) = (ok (true, ended completed step), w)
after_rmtree step (some e, w) = (err e, w)

-- What `_rollback_git_revert` catches itself.
abbrev pub caught :
    RollbackStep
    → Result String (Bool × RollbackStep) × World
    → Result String (Bool × RollbackStep) × World
caught step (ok a, w) = (ok a, w)
caught step (err e, w) = (ok (false, failing e step), w)

abbrev pub settled :
    RollbackStep → Result String (Bool × RollbackStep) × World → (Bool × RollbackStep) × World
settled s (ok a, w) = (a, w)
settled s (err e, w) = ((false, failing e s), w)

-- `step.status in (COMPLETED, SKIPPED)`
abbrev pub is_done : RollbackStep → Bool
is_done s = status_is s.status completed || status_is s.status skipped

-- What the loop has come to: the steps, how many succeeded in it, and the world.
pub record Progress : Type 0 where
  pub steps : List RollbackStep
  pub succeeded : ℕ
  pub world : World

-- One round of the loop: the step as it is left, whether it is counted, and whether the loop ends.
pub record Turn : Type 0 where
  pub step : RollbackStep
  pub count : ℕ
  pub halted : Bool
  pub after : World

abbrev pub turn_of : Bool → (Bool × RollbackStep) × World → Turn
turn_of stop ((true, s), w) = record { step = s; count = 1; halted = false; after = w }
turn_of stop ((false, s), w) = record { step = s; count = 0; halted = stop; after = w }

abbrev pub having : RollbackStatus → List RollbackStep → List RollbackStep
having status = filterb (λ s. status_is s.status status)

module _ (sys : System) where
  -- The file of a snapshot without content is removed, if there is one.
  abbrev pub remove_if : Bool → String → Exec World String (Unit {0})
  remove_if true path = unlink sys path
  remove_if false path = pure tt

  abbrev pub put_back : FileSnapshot → Option String → Exec World String (Unit {0})
  put_back s none w = remove_if (has_key s.path w.files) s.path w
  put_back s (some content) w = write_text sys s.path content w

  -- `_rollback_file_snapshot`
  unfoldable pub rollback_file_snapshot : Option FileSnapshot → RollbackStep → Handler
  unfolding unlink write_text has_key
  rollback_file_snapshot none step = pure (true, ended skipped step)
  rollback_file_snapshot (some s) step = do put_back s s.content; pure (true, ended completed step)

  abbrev pub recreate : FileSnapshot → Option String → RollbackStep → Handler
  recreate s none step = pure (true, ended skipped step)
  recreate s (some content) step = do
    write_text sys s.path content
    pure (true, ended completed step)

  -- `_rollback_file_delete`
  unfoldable pub rollback_file_delete : Option FileSnapshot → RollbackStep → Handler
  unfolding write_text
  rollback_file_delete none step = pure (true, ended skipped step)
  rollback_file_delete (some s) step = recreate s s.content step

  -- `_rollback_command_reverse`; an empty command is as good as none.
  unfoldable pub rollback_command_reverse : Option String → RollbackStep → Handler
  rollback_command_reverse none step w = (ok (true, ended skipped step), w)
  rollback_command_reverse (some command) step w =
      if str_eq command ""
      then (ok (true, ended skipped step), w)
      else after_command sys.command_failed step (sys.shell command w)

  -- `_rollback_deployment`
  unfoldable pub rollback_deployment : RollbackStep → Handler
  rollback_deployment step = pure (true, ended skipped step)

  -- `_rollback_directory_cleanup`
  unfoldable pub rollback_directory_cleanup : RollbackStep → Handler
  rollback_directory_cleanup step w =
      if sys.directory_exists step.target w
      then after_rmtree step (sys.rmtree step.target w)
      else (ok (true, ended completed step), w)

  -- `_rollback_git_revert`
  unfoldable pub rollback_git_revert : RollbackStep → Handler
  rollback_git_revert step w =
      caught step (after_command sys.git_failed step (sys.git_checkout step.target w))

  -- The loop over `env_changes`: `None` removes a variable, and only a text can be one's value.
  unfoldable pub restore_env : Fields → Exec World String (Unit {0})
  unfolding insert delete
  restore_env end = pure tt
  restore_env (field k null fs) = do modify (λ w. record w { env = delete k w.env }); restore_env fs
  restore_env (field k (str v) fs) = do
    modify (λ w. record w { env = insert k v w.env })
    restore_env fs
  restore_env (field k _ fs) = raise sys.bad_value

  abbrev pub env_changes : Option Json → Exec World String (Unit {0})
  env_changes none = pure tt
  env_changes (some (obj fs)) = restore_env fs
  env_changes (some _) = raise sys.bad_value

  -- `_rollback_environment`
  unfoldable pub rollback_environment : RollbackStep → Handler
  unfolding restore_env get_field
  rollback_environment step = do
    env_changes (get_field "env_changes" step.metadata)
    pure (true, ended completed step)

  -- The handler for the type of the step.
  unfoldable pub handle : RollbackType → RollbackStep → Handler
  unfolding rollback_file_snapshot rollback_file_delete rollback_command_reverse rollback_deployment
      rollback_directory_cleanup rollback_git_revert rollback_environment
  handle file_snapshot s = rollback_file_snapshot s.snapshot s
  handle file_delete s = rollback_file_delete s.snapshot s
  handle command_reverse s = rollback_command_reverse s.reverse_command s
  handle deployment_rollback s = rollback_deployment s
  handle directory_cleanup s = rollback_directory_cleanup s
  handle git_revert s = rollback_git_revert s
  handle environment_restore s = rollback_environment s
  handle database_rollback s = pure (true, ended skipped s)

  -- `_execute_step`, at the time `now`
  unfoldable pub execute_step : ℕ → RollbackStep → World → (Bool × RollbackStep) × World
  unfolding handle
  execute_step now step w =
      let s = record step { status = in_progress; executed_at = some now } in
      settled s (handle s.rollback_type s w)

  -- A step that is done is passed over. `clock` gives the time at which a step starts.
  unfoldable pub turn : (RollbackStep → ℕ) → Bool → RollbackStep → World → Turn
  unfolding status_is execute_step
  turn clock stop s w =
      if is_done s
      then record { step = s; count = 0; halted = false; after = w }
      else turn_of stop (execute_step (clock s) s w)

  -- The loop of `execute_rollback`.
  unfoldable pub run_steps : (RollbackStep → ℕ) → Bool → List RollbackStep → World → Progress
  unfolding turn
  run_steps clock stop [] w = record { steps = []; succeeded = 0; world = w }
  run_steps clock stop (s ∷ ss) w =
      let t = turn clock stop s w in
      let rest = run_steps clock stop ss t.after in
      if t.halted
      then record { steps = t.step ∷ ss; succeeded = t.count; world = t.after }
      else record rest { steps = t.step ∷ rest.steps; succeeded = t.count + rest.succeeded }

  -- The status and the error of a procedure with these steps; the error stays where there is none.
  abbrev pub verdict : ℕ → ℕ → Option String → RollbackStatus × Option String
  verdict zero zero old = (completed, old)
  verdict zero (suc n) old = (failed, some (sys.steps_not_executed (suc n)))
  verdict (suc n) _ old = (failed, some (sys.steps_failed (suc n)))

  -- `execute_rollback` of a procedure; `at` is the time at its end.
  unfoldable pub execute :
      (RollbackStep → ℕ) → ℕ → Bool → RollbackProcedure → World → RollbackProcedure × World
  unfolding run_steps status_is
  execute clock at stop p w =
      let r = run_steps clock stop p.steps w in
      let (status, error) =
        verdict (length (having failed r.steps)) (length (having pending r.steps)) p.error in
      (
        record p {
          steps = r.steps;
          completed_steps = p.completed_steps + r.succeeded;
          status = status;
          error = error;
          completed_at = some at;
        },
        r.world,
      )

  abbrev pub execute_current :
      (RollbackStep → ℕ)
      → ℕ
      → Bool
      → Option RollbackProcedure
      → Engine
      → World
      → RollbackProcedure × Engine × World
  execute_current clock at stop none e w = (
    record {
      procedure_id = "none";
      run_id = e.run_id;
      task_id = none;
      created_at = at;
      completed_at = none;
      steps = [];
      status = pending;
      error = none;
      total_steps = 0;
      completed_steps = 0;
    },
    e,
    w,
  )
  execute_current clock at stop (some p) e w =
      let (p', w') = execute clock at stop p w in (p', record e { current = some p' }, w')

  -- `execute_rollback()` of the current procedure
  unfoldable pub execute_rollback :
      (RollbackStep → ℕ) → ℕ → Bool → Engine → World → RollbackProcedure × Engine × World
  unfolding execute
  execute_rollback clock at stop e w = execute_current clock at stop e.current e w
