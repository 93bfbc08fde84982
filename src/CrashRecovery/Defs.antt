-- ===== src/CrashRecovery/Defs.antt =====
-- `CrashRecovery` of rann_agent/storage/recovery.py. The storage is given by what it
-- answers or raises.
use rann_agent.Prelude.{
  ℕ, String, Bool, true, false, Option, none, some, List, [], ◌∷◌, length, str_eq, anyb,
  if◌then◌else◌,
}
use rann_agent.Exec.{Result, ok, err}

-- A row of a run, and one of a call of a tool, as the storage gives them.
pub record RunRow : Type 0 where
  pub run_id : String
  pub task_id : String
  pub start_time : String

pub record ToolCallRow : Type 0 where
  pub success : Bool
  pub tool_name : String

-- What `save_run` is asked to write: the run, its task and the two times, with the status.
pub record SavedRun : Type 0 where
  pub run_id : String
  pub task_id : String
  pub saved_at : ℕ
  pub status : String
  pub rolled_back_at : ℕ

-- What a call of the storage may raise: it has no method of that name, or the method fails.
pub data StorageError : Type 0 where
  attribute_error failure : String → StorageError

-- What the recovery asks of the storage: its runs that have not ended, the states of the transitions of
-- a run, a run, its calls of tools in their order, and to save a run. Each answers or raises.
pub record Storage : Type 0 where
  pub get_incomplete_runs : Result StorageError (List RunRow)
  pub get_transitions : String → Result StorageError (List String)
  pub get_run : String → Result StorageError (Option RunRow)
  pub get_tool_calls : String → Result StorageError (List ToolCallRow)
  pub save_run : SavedRun → Result StorageError (Unit {0})

-- `Database` of rann_agent/storage/database.py as the storage: it has none of these methods.
abbrev pub database : Storage
database = record {
  get_incomplete_runs = err (attribute_error "get_incomplete_runs");
  get_transitions = λ run_id. err (attribute_error "get_transitions");
  get_run = λ run_id. err (attribute_error "get_run");
  get_tool_calls = λ run_id. err (attribute_error "get_tool_calls");
  save_run = λ saved. err (attribute_error "save_run");
}

-- What is done with an answer; what was raised is raised on.
abbrev pub and_then :
    {A B : Type 0} → Result StorageError A → (A → Result StorageError B) → Result StorageError B
and_then (ok a) k = k a
and_then (err e) k = err e

pub record IncompleteRun : Type 0 where
  pub run_id : String
  pub task_id : String
  pub last_state : String
  pub checkpoint_path : Option String
  pub partial_side_effects : List String
  pub last_tool_call : Option String
  pub start_time : String

pub data Action : Type 0 where
  resume rollback block : Action

-- The text of a reason, as what it is made of.
pub data Reason : Type 0 where
  no_storage run_not_found no_tool_calls last_succeeded : Reason
  last_read_only last_failed : String → Reason

pub record ReconciliationResult : Type 0 where
  pub run_id : String
  pub action : Action
  pub reason : Reason
  pub files_to_restore : List String
  pub resume_from_step : Option ℕ

-- `xs[-1] if xs else default`
abbrev pub last_or : {A : Type 0} → A → List A → A
last_or x [] = x
last_or x (y ∷ ys) = last_or y ys

abbrev incomplete : RunRow → List String → IncompleteRun
incomplete r transitions = record {
  run_id = r.run_id;
  task_id = r.task_id;
  last_state = last_or "UNKNOWN" transitions;
  checkpoint_path = none;
  partial_side_effects = [];
  last_tool_call = none;
  start_time = r.start_time;
}

unfoldable pub incomplete_runs : Storage → List RunRow → Result StorageError (List IncompleteRun)
incomplete_runs s [] = ok []
incomplete_runs s (r ∷ rs) =
    and_then (s.get_transitions r.run_id) (λ transitions.
      and_then (incomplete_runs s rs) (λ runs. ok (incomplete r transitions ∷ runs)))

-- `on_startup`
unfoldable pub on_startup : Option Storage → Result StorageError (List IncompleteRun)
unfolding incomplete_runs
on_startup none = ok []
on_startup (some s) = and_then s.get_incomplete_runs (incomplete_runs s)

abbrev pub read_only : String → Bool
read_only tool_name =
    anyb (λ t. str_eq t tool_name) ("read" ∷ "search" ∷ "grep" ∷ "list" ∷ "stat" ∷ [])

abbrev pub resumed : String → Reason → ℕ → ReconciliationResult
resumed run_id reason n = record {
  run_id = run_id;
  action = resume;
  reason = reason;
  files_to_restore = [];
  resume_from_step = some n;
}

abbrev pub blocked : String → Reason → ReconciliationResult
blocked run_id reason = record {
  run_id = run_id;
  action = block;
  reason = reason;
  files_to_restore = [];
  resume_from_step = none;
}

-- `_detect_modified_files`
unfoldable pub detect_modified_files : String → List String
detect_modified_files run_id = []

-- By the last call, of which there are `n`.
abbrev pub by_last : String → ℕ → ToolCallRow → ReconciliationResult
by_last run_id n c =
    if c.success
    then resumed run_id last_succeeded n
    else if read_only c.tool_name
    then resumed run_id (last_read_only c.tool_name) n
    else record {
      run_id = run_id;
      action = rollback;
      reason = last_failed c.tool_name;
      files_to_restore = detect_modified_files run_id;
      resume_from_step = none;
    }

abbrev pub by_calls : String → List ToolCallRow → ReconciliationResult
by_calls run_id [] = resumed run_id no_tool_calls 0
by_calls run_id (c ∷ cs) = by_last run_id (length (c ∷ cs)) (last_or c cs)

abbrev pub by_run : Storage → String → Option RunRow → Result StorageError ReconciliationResult
by_run s run_id none = ok (blocked run_id run_not_found)
by_run s run_id (some r) =
    and_then (s.get_tool_calls run_id) (λ tool_calls. ok (by_calls run_id tool_calls))

-- `reconcile`
unfoldable pub reconcile : Option Storage → String → Result StorageError ReconciliationResult
unfolding detect_modified_files
reconcile none run_id = ok (blocked run_id no_storage)
reconcile (some s) run_id = and_then (s.get_run run_id) (by_run s run_id)

abbrev pub is_resume : Action → Bool
is_resume resume = true
is_resume rollback = false
is_resume block = false

-- `resume`
unfoldable pub may_resume : Option Storage → String → Result StorageError Bool
unfolding reconcile
may_resume none run_id = ok false
may_resume (some s) run_id =
    and_then (reconcile (some s) run_id) (λ reconciliation. ok (is_resume reconciliation.action))

abbrev rolled_back : String → ℕ → ℕ → SavedRun
rolled_back run_id now later = record {
  run_id = run_id;
  task_id = "";
  saved_at = later;
  status = "rolled_back";
  rolled_back_at = now;
}

-- `rollback`, which restores nothing: it has the run saved as rolled back. The two times are read one
-- after the other.
unfoldable pub roll_back : Option Storage → String → ℕ → ℕ → Result StorageError Bool
roll_back none run_id now later = ok false
roll_back (some s) run_id now later =
    and_then (s.save_run (rolled_back run_id now later)) (λ u. ok true)
