-- ===== src/TaskGraph/Edit.antt =====
-- The methods of `TaskGraph` of rann_agent/orchestration/task_graph.py that change it.
use rann_agent.Prelude.{
  ℕ, String, Bool, false, not, ◌&&◌, Option, none, some, List, [], ◌∷◌, ◌++◌, str_eq, filterb,
  if◌then◌else◌,
}
use rann_agent.Exec.{Result, ok, err}
use rann_agent.Json.{Fields}
use rann_agent.Dict.{lookup, has_key, insert, delete}
use rann_agent.TaskGraph.Node.{
  TaskPriority, pending, blocked, failed, status_is, Node, Tasks, contains, no_items,
}

-- The exceptions of the methods below.
pub data GraphError : Type 0 where
  already_exists not_found : String → GraphError

-- `self.tasks[task_id]` changed in place, if it is there.
abbrev change_found : String → (Node → Node) → Option Node → Tasks → Tasks
change_found k f none ts = ts
change_found k f (some n) ts = insert k (f n) ts

unfoldable pub change : String → (Node → Node) → Tasks → Tasks
change k f ts = change_found k f (lookup k ts) ts

-- The tasks that name `task_id` among their dependencies.
unfoldable pub dependents_of : String → Tasks → List String
dependents_of task_id [] = []
dependents_of task_id ((k, n) ∷ ts) =
    let rest = dependents_of task_id ts in
    if contains task_id n.dependencies then k ∷ rest else rest

-- `_update_dependents`
unfoldable pub update_dependents : String → Tasks → Tasks
unfolding change dependents_of
update_dependents task_id ts =
    change task_id (λ n. record n { dependents = dependents_of task_id ts }) ts

-- The loop over the dependencies of a new task.
unfoldable pub update_all : List String → Tasks → Tasks
unfolding has_key
update_all [] ts = ts
update_all (d ∷ ds) ts = update_all ds (if has_key d ts then update_dependents d ts else ts)

-- `add_task`
unfoldable pub add_task :
    (task_id name description : String) (dependencies : List String)
    → TaskPriority
    → Option ℕ
    → Fields
    → Tasks
    → Result GraphError Tasks
unfolding has_key update_all insert
add_task task_id name description dependencies priority estimated_duration metadata ts =
    if has_key task_id ts
    then err (already_exists task_id)
    else ok (
        update_all dependencies (
          update_dependents task_id (
            insert task_id
              (record {
                id = task_id;
                name = name;
                description = description;
                status = pending;
                priority = priority;
                assigned_agent = none;
                dependencies = dependencies;
                dependents = [];
                result = none;
                error = none;
                estimated_duration = estimated_duration;
                actual_duration = none;
                started_at = none;
                completed_at = none;
                metadata = metadata;
              })
              ts)))

-- Appended where it is not there yet.
unfoldable pub append_new : String → List String → List String
append_new x xs = if contains x xs then xs else xs ++ x ∷ []

-- `link`
unfoldable pub link : (from_task to_task : String) → Tasks → Result GraphError Tasks
unfolding has_key change append_new
link from_task to_task ts =
    if not (has_key from_task ts)
    then err (not_found from_task)
    else if not (has_key to_task ts)
    then err (not_found to_task)
    else ok (
        change from_task (λ n. record n { dependents = append_new to_task n.dependents })
          (change to_task (λ n. record n { dependencies = append_new from_task n.dependencies })
            ts))

-- `xs.remove(x)`, where `x` is in the list: its first occurrence goes.
unfoldable pub remove_first : String → List String → List String
remove_first x [] = []
remove_first x (y ∷ ys) = if str_eq y x then ys else y ∷ remove_first x ys

-- The loops of `remove_task` over the dependencies and over the dependents.
unfoldable pub forget_dependents : String → List String → Tasks → Tasks
unfolding change remove_first
forget_dependents task_id [] ts = ts
forget_dependents task_id (d ∷ ds) ts =
    forget_dependents task_id ds
      (change d (λ n. record n { dependents = remove_first task_id n.dependents }) ts)

unfoldable pub forget_dependencies : String → List String → Tasks → Tasks
unfolding change remove_first
forget_dependencies task_id [] ts = ts
forget_dependencies task_id (d ∷ ds) ts =
    forget_dependencies task_id ds
      (change d (λ n. record n { dependencies = remove_first task_id n.dependencies }) ts)

abbrev dependents_in : Option Node → List String
dependents_in none = []
dependents_in (some n) = n.dependents

-- The dependents are read when the first loop is done: a task that depends on itself changes them.
abbrev remove_found : String → Option Node → Tasks → Tasks
remove_found task_id none ts = ts
remove_found task_id (some n) ts =
    let ts' = forget_dependents task_id n.dependencies ts in
    delete task_id (forget_dependencies task_id (dependents_in (lookup task_id ts')) ts')

-- `remove_task`
unfoldable pub remove_task : String → Tasks → Tasks
unfolding forget_dependents forget_dependencies delete
remove_task task_id ts = remove_found task_id (lookup task_id ts) ts

abbrev pub has_failed : Option Node → Bool
has_failed none = false
has_failed (some n) = status_is n.status failed

-- The dependencies of a task that have failed.
unfoldable pub failed_deps : Tasks → Node → List String
unfolding status_is
failed_deps ts n = filterb (λ d. has_failed (lookup d ts)) n.dependencies

-- A pending task with a failed dependency is blocked.
unfoldable pub is_blocked : Tasks → Node → Bool
unfolding failed_deps
is_blocked ts n = status_is n.status pending && not (no_items (failed_deps ts n))

unfoldable pub block : Tasks → Node → Node
unfolding failed_deps
block ts n = record n { status = blocked; error = some (failed_deps ts n) }

-- `get_blocked_tasks`: a node that becomes blocked does not change which tasks have failed, so the
-- loop over the nodes reads the graph as it was.
unfoldable pub block_all : Tasks → Tasks → Tasks
unfolding is_blocked block
block_all all [] = []
block_all all ((k, n) ∷ ts) = (k, if is_blocked all n then block all n else n) ∷ block_all all ts

unfoldable pub blocked_nodes : Tasks → Tasks → List Node
unfolding is_blocked block
blocked_nodes all [] = []
blocked_nodes all ((k, n) ∷ ts) =
    let rest = blocked_nodes all ts in if is_blocked all n then block all n ∷ rest else rest

unfoldable pub get_blocked_tasks : Tasks → Tasks × List Node
unfolding block_all blocked_nodes
get_blocked_tasks ts = (block_all ts ts, blocked_nodes ts ts)
