-- ===== src/TaskGraph/Examples.antt =====
-- Tests and witnesses on a small graph: "b" and "c" need "a", and "c" needs "b" too.
use rann_agent.Prelude.{String, ◌≡◌, refl, true, none, List, [], ◌∷◌, map, In, ◌↔◌}
use rann_agent.Exec.{ok, err}
use rann_agent.Json.{end}
use rann_agent.Dict.{values, keys, lookup, insert}
use rann_agent.TaskGraph.Node.{
  Node, Tasks, TaskStatus, pending, completed, failed, normal, high, get_ready_tasks, insert_node,
}
use rann_agent.TaskGraph.Edit.{update_dependents, already_exists, add_task, remove_task}
use rann_agent.TaskGraph.Ready.{IsReady, Ordered, get_ready_tasks_exact}
use rann_agent.TaskGraph.Cycles.{cycle, key_error, validate}
use rann_agent.TaskGraph.Valid.{IsDict, Verdict, validate-Verdict}
use rann_agent.TaskGraph.Batches.{get_parallel_batches}
use rann_agent.TaskGraph.Layers.{BatchesAnswer, get_parallel_batches-BatchesAnswer}

abbrev task : String → TaskStatus → List String → List String → Node
task id status dependencies dependents = record {
  id = id;
  name = id;
  description = "";
  status = status;
  priority = normal;
  assigned_agent = none;
  dependencies = dependencies;
  dependents = dependents;
  result = none;
  error = none;
  estimated_duration = none;
  actual_duration = none;
  started_at = none;
  completed_at = none;
  metadata = end;
}

abbrev a_done : Tasks
a_done =
    ("a", task "a" completed [] ("b" ∷ "c" ∷ []))
    ∷ ("b", task "b" pending ("a" ∷ []) ("c" ∷ []))
    ∷ ("c", task "c" pending ("a" ∷ "b" ∷ []) [])
    ∷ []

abbrev b_failed : Tasks
b_failed =
    ("a", task "a" completed [] ("b" ∷ "c" ∷ []))
    ∷ ("b", task "b" failed ("a" ∷ []) ("c" ∷ []))
    ∷ ("c", task "c" pending ("a" ∷ "b" ∷ []) [])
    ∷ []

ready_ids : map (λ (n : Node). n.id) (get_ready_tasks a_done) ≡ ("b" ∷ [])
unfolding get_ready_tasks values insert_node
ready_ids = refl

removed_ids : keys (remove_task "b" a_done) ≡ ("a" ∷ "c" ∷ [])
unfolding remove_task keys lookup insert
removed_ids = refl

added_again : add_task "a" "A" "" [] high none end a_done ≡ err (already_exists "a")
unfolding add_task lookup
added_again = refl

added_ids : add_task "a" "a" "" [] normal none end [] ≡ ok (("a", task "a" pending [] []) ∷ [])
unfolding add_task update_dependents lookup
added_ids = refl

get_ready_tasks_exact_example :
    ((n : Node) → In n (get_ready_tasks a_done) ↔ (In n (values a_done) × IsReady a_done n))
    × Ordered (get_ready_tasks a_done)
get_ready_tasks_exact_example = get_ready_tasks_exact a_done

-- "a" and "b" need each other.
abbrev circle : Tasks
circle =
    ("a", task "a" pending ("b" ∷ []) ("b" ∷ []))
    ∷ ("b", task "b" pending ("a" ∷ []) ("a" ∷ []))
    ∷ []

circle_found : validate circle ≡ err (cycle "b")
unfolding validate lookup
circle_found = refl

unknown_key_error : validate (("a", task "a" pending ("x" ∷ []) []) ∷ []) ≡ err (key_error "x")
unfolding validate lookup
unknown_key_error = refl

valid_here : validate a_done ≡ ok true
unfolding validate lookup
valid_here = refl

a_done-IsDict : IsDict a_done
unfolding lookup
a_done-IsDict = (refl, (refl, (refl, tt)))

validate-Verdict_example : Verdict a_done (validate a_done)
validate-Verdict_example = validate-Verdict a_done a_done-IsDict

-- Three tasks of which two can run at once.
abbrev fork : Tasks
fork =
    ("c", task "c" pending ("a" ∷ []) [])
    ∷ ("b", task "b" pending ("a" ∷ []) [])
    ∷ ("a", task "a" pending [] ("c" ∷ "b" ∷ []))
    ∷ []

fork_batches : get_parallel_batches fork ≡ ok (("a" ∷ []) ∷ ("b" ∷ "c" ∷ []) ∷ [])
unfolding get_parallel_batches lookup
fork_batches = refl

fork-IsDict : IsDict fork
unfolding lookup
fork-IsDict = (refl, (refl, (refl, tt)))

get_parallel_batches-BatchesAnswer_example : BatchesAnswer fork (get_parallel_batches fork)
get_parallel_batches-BatchesAnswer_example = get_parallel_batches-BatchesAnswer fork fork-IsDict
