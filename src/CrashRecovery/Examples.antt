-- ===== src/CrashRecovery/Examples.antt =====
-- The recovery from a crash at a concrete storage.
use rann_agent.Prelude.{◌≡◌, ◌↔◌, refl, Bool, not, true, false, some, List, [], ◌∷◌}
use rann_agent.CrashRecovery.Defs.{
  RunRow, ToolCallRow, Storage, StorageError, attribute_error, database, ReconciliationResult,
  is_resume, reconcile, may_resume,
}
use rann_agent.Exec.{Result, ok, err}
use rann_agent.CrashRecovery.Reconciled.{IsSafe, Answers, reconcile-Answers}

abbrev crashed : RunRow
crashed = record { run_id = "r"; task_id = "t"; start_time = "2024" }

-- The last call, a write, failed.
abbrev tool_calls : List ToolCallRow
tool_calls =
    record { success = true; tool_name = "read" }
    ∷ record { success = false; tool_name = "write" }
    ∷ []

abbrev storage : Storage
storage = record {
  get_incomplete_runs = ok (crashed ∷ []);
  get_transitions = λ id. ok ("executing" ∷ []);
  get_run = λ id. ok (some crashed);
  get_tool_calls = λ id. ok tool_calls;
  save_run = λ saved. ok tt;
}

abbrev rolls_back : Result StorageError ReconciliationResult → Bool
rolls_back (ok a) = not (is_resume a.action)
rolls_back (err e) = false

write_rolls_back : rolls_back (reconcile (some storage) "r") ≡ true
unfolding reconcile
write_rolls_back = refl

reconcile-Answers_example :
    ((a : ReconciliationResult) × (reconcile (some storage) "r" ≡ ok a)
      × Answers tool_calls a
      × (may_resume (some storage) "r" ≡ ok (is_resume a.action))
      × ((is_resume a.action ≡ true) ↔ IsSafe tool_calls))
    × (reconcile (some database) "r" ≡ err (attribute_error "get_run"))
    × (may_resume (some database) "r" ≡ err (attribute_error "get_run"))
reconcile-Answers_example = reconcile-Answers "r" storage crashed tool_calls refl refl
