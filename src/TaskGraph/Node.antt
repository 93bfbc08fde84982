-- ===== src/TaskGraph/Node.antt =====
-- `TaskNode` of rann_agent/orchestration/task_graph.py, and the queries of `TaskGraph` that read the
-- tasks one by one. Durations are whole milliseconds.
use rann_agent.Prelude.{
  ℕ, String, Bool, true, false, not, ◌&&◌, ◌||◌, Option, none, some, List, [], ◌∷◌, str_eq, anyb,
  allb, filterb, if◌then◌else◌, ltb, ◌==◌,
}
use rann_agent.Dict.{Dict, values}
use rann_agent.Json.{Json, Fields}

pub data TaskStatus : Type 0 where
  pending blocked ready running completed failed skipped : TaskStatus

pub data TaskPriority : Type 0 where
  low normal high critical : TaskPriority

-- `priority.value`
unfoldable pub priority_value : TaskPriority → ℕ
priority_value low = 0
priority_value normal = 1
priority_value high = 2
priority_value critical = 3

unfoldable pub status_is : TaskStatus → TaskStatus → Bool
status_is pending pending = true
status_is blocked blocked = true
status_is ready ready = true
status_is running running = true
status_is completed completed = true
status_is failed failed = true
status_is skipped skipped = true
status_is _ _ = false

pub record Node : Type 0 where
  pub id : String
  pub name : String
  pub description : String
  pub status : TaskStatus
  pub priority : TaskPriority
  pub assigned_agent : Option String
  pub dependencies : List String
  pub dependents : List String
  pub result : Option Json
  -- for a blocked task, the failed dependencies that its text names
  pub error : Option (List String)
  pub estimated_duration : Option ℕ
  pub actual_duration : Option ℕ
  pub started_at : Option ℕ
  pub completed_at : Option ℕ
  pub metadata : Fields

-- The tasks of a graph, in the order in which they were added.
abbrev pub Tasks : Type 0
Tasks = Dict Node

-- `x in xs`
abbrev pub contains : String → List String → Bool
contains x xs = anyb (λ y. str_eq y x) xs

abbrev pub no_items : List String → Bool
no_items [] = true
no_items (x ∷ xs) = false

unfoldable pub is_ready : Node → Bool
unfolding status_is
is_ready n = status_is n.status pending && no_items n.dependencies

unfoldable pub can_run : List String → Node → Bool
unfolding status_is
can_run completed_ids n =
    if not (status_is n.status pending)
    then false
    else allb (λ d. contains d completed_ids) n.dependencies

-- The ids of the tasks with a status.
unfoldable pub ids_with : TaskStatus → Tasks → List String
unfolding status_is
ids_with s [] = []
ids_with s ((k, n) ∷ ts) =
    let rest = ids_with s ts in if status_is n.status s then k ∷ rest else rest

-- `(-priority.value, estimated_duration or 0)` of `a` is below that of `b`.
abbrev duration : Option ℕ → ℕ
duration none = 0
duration (some d) = d

unfoldable pub more_urgent : Node → Node → Bool
unfolding priority_value
more_urgent a b =
    ltb (priority_value b.priority) (priority_value a.priority)
    || priority_value a.priority == priority_value b.priority
      && ltb (duration a.estimated_duration) (duration b.estimated_duration)

-- A stable sort by that key.
unfoldable pub insert_node : Node → List Node → List Node
unfolding more_urgent
insert_node n [] = n ∷ []
insert_node n (m ∷ ms) =
    let rest = insert_node n ms in if more_urgent m n then m ∷ rest else n ∷ m ∷ ms

unfoldable pub sort_nodes : List Node → List Node
sort_nodes [] = []
sort_nodes (n ∷ ns) = insert_node n (sort_nodes ns)

unfoldable pub get_ready_tasks : Tasks → List Node
unfolding ids_with can_run sort_nodes
get_ready_tasks ts = sort_nodes (filterb (can_run (ids_with completed ts)) (values ts))

unfoldable pub get_running_tasks : Tasks → List Node
unfolding status_is
get_running_tasks ts = filterb (λ n. status_is n.status running) (values ts)

unfoldable pub get_completed_tasks : Tasks → List Node
unfolding status_is
get_completed_tasks ts = filterb (λ n. status_is n.status completed) (values ts)

unfoldable pub get_failed_tasks : Tasks → List Node
unfolding status_is
get_failed_tasks ts = filterb (λ n. status_is n.status failed) (values ts)

unfoldable pub is_complete : Tasks → Bool
unfolding status_is
is_complete ts =
    allb
      (λ n. status_is n.status completed || status_is n.status failed || status_is n.status skipped)
      (values ts)
