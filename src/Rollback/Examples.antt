-- ===== src/Rollback/Examples.antt =====
-- Runs of the rollback engine, and its theorems at concrete systems and files.
use rann_agent.Prelude.{ℕ, String, ◌≡◌, ◌⊎◌, ◌↔◌, refl, true, false, none, some, List, [], ◌∷◌, All}
use rann_agent.Dict.{lookup, insert}
use rann_agent.Json.{end}
use rann_agent.Rollback.Types.{
  file_snapshot, command_reverse, pending, completed, failed, FileSnapshot, RollbackStep,
  RollbackProcedure,
}
use rann_agent.Rollback.World.{text, unreadable, returned, World, System}
use rann_agent.Rollback.Record.{new_engine}
use rann_agent.Rollback.Execute.{execute, execute_rollback, is_done, run_steps}
use rann_agent.Rollback.Outcome.{execute_status}
use rann_agent.Rollback.Restore.{
  Writable, run_steps_files, file_after, last_of, two_edits, rollback_between,
}

-- Every write succeeds, and a command returns 1.
abbrev machine : System
machine = record {
  resolve = λ p. p;
  hash = λ s. s;
  shell = λ c w. (returned 1 "no", w);
  git_checkout = λ c w. (returned 0 "", w);
  directory_exists = λ p w. false;
  rmtree = λ p w. (none, w);
  write_error = λ p w. none;
  unlink_error = λ p w. none;
  command_failed = λ s. s;
  git_failed = λ s. s;
  steps_failed = λ n. "failed";
  steps_not_executed = λ n. "not executed";
  bad_value = "str expected";
}

machine_writes : Writable machine
machine_writes = record { writes = λ p w. refl; unlinks = λ p w. refl }

abbrev snapshot : FileSnapshot
snapshot = record { path = "a"; content = some "old"; checksum = none; created_at = 0 }

abbrev file_step : RollbackStep
file_step = record {
  step_id = "rb_1";
  rollback_type = file_snapshot;
  target = "a";
  reverse_command = none;
  snapshot = some snapshot;
  metadata = end;
  status = pending;
  error = none;
  executed_at = none;
}

abbrev command_step : RollbackStep
command_step = record file_step {
  step_id = "rb_2";
  rollback_type = command_reverse;
  target = "make";
  reverse_command = some "make clean";
  snapshot = none;
}

abbrev procedure : List RollbackStep → RollbackProcedure
procedure ss = record {
  procedure_id = "p";
  run_id = "r";
  task_id = none;
  created_at = 0;
  completed_at = none;
  steps = ss;
  status = pending;
  error = none;
  total_steps = 2;
  completed_steps = 0;
}

abbrev now_with : String → World
now_with s = record { files = ("a", text s) ∷ []; env = [] }

abbrev binary : World
binary = record { files = ("a", unreadable) ∷ []; env = [] }

abbrev clock : RollbackStep → ℕ
clock s = 7

restored :
    (execute machine clock 9 false (procedure (file_step ∷ [])) (now_with "new")).1.files
    ≡ (("a", text "old") ∷ [])
unfolding execute insert
restored = refl

stopped :
    (execute machine clock 9 true
      (procedure (command_step ∷ file_step ∷ []))
      (now_with "new")).0.error
    ≡ some "failed"
unfolding execute
stopped = refl

execute_status_example :
    (((execute machine clock 9 true
          (procedure (command_step ∷ file_step ∷ []))
          (now_with "new")).0.status
        ≡ completed)
      ↔ All
          (λ s. is_done s ≡ true)
          (execute machine clock 9 true
            (procedure (command_step ∷ file_step ∷ []))
            (now_with "new")).0.steps)
    × (((execute machine clock 9 true
            (procedure (command_step ∷ file_step ∷ []))
            (now_with "new")).0.status
          ≡ completed)
        ⊎ ((execute machine clock 9 true
              (procedure (command_step ∷ file_step ∷ []))
              (now_with "new")).0.status
            ≡ failed))
execute_status_example =
    execute_status machine clock 9 true (procedure (command_step ∷ file_step ∷ [])) (now_with "new")

completes :
    (execute machine clock 9 false (procedure (file_step ∷ [])) (now_with "new")).0.status
    ≡ completed
unfolding execute
completes = refl

run_steps_files_example :
    lookup "a" (run_steps machine clock false (file_step ∷ []) (now_with "new")).world.files
    ≡ file_after (lookup "a" (now_with "new").files) (last_of "a" (snapshot ∷ []))
run_steps_files_example =
    run_steps_files machine machine_writes clock false (file_step ∷ []) (snapshot ∷ [])
      (now_with "new") (refl, refl, refl, tt) "a"

abbrev numbered : ℕ → String
numbered n = "rb"

middle : lookup "a" (now_with "middle").files ≡ some (text "middle")
unfolding lookup
middle = refl

rollback_between_example :
    lookup "a"
      (execute_rollback machine clock 9 false
        (two_edits machine numbered (new_engine "r") "a" (now_with "first") (now_with "middle"))
        (now_with "last")).2.files
    ≡ some (text "middle")
rollback_between_example =
    rollback_between machine numbered machine_writes (new_engine "r") "a" (now_with "first")
      (now_with "middle") (now_with "last") "middle" middle clock 9 false

is_binary : lookup "a" binary.files ≡ some unreadable
unfolding lookup
is_binary = refl
