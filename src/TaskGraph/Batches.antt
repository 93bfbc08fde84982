-- ===== src/TaskGraph/Batches.antt =====
-- `get_parallel_batches` of rann_agent/orchestration/task_graph.py. A set is a list
-- without repetition. The loop recurses on fuel.
use rann_agent.Prelude.{
  ℕ, zero, suc, String, Bool, false, not, ◌&&◌, ◌||◌, Option, none, some, List, [], ◌∷◌, ◌++◌,
  length, filterb, allb, if◌then◌else◌,
}
use Prim.Native.String.{compare}
use text.Mathlib.Text.{is_lt}
use rann_agent.Exec.{Result, ok, err}
use rann_agent.Dict.{lookup, keys}
use rann_agent.TaskGraph.Node.{Node, Tasks, pending, status_is, contains, no_items}
use rann_agent.TaskGraph.Cycles.{Invalid, out_of_fuel, after, validate}

-- `x < y` for texts
abbrev pub text_before : String → String → Bool
text_before x y = is_lt (compare x y)

-- `sorted(xs)`, a stable sort
unfoldable pub insert_text : String → List String → List String
insert_text x [] = x ∷ []
insert_text x (y ∷ ys) =
    let rest = insert_text x ys in if text_before y x then y ∷ rest else x ∷ y ∷ ys

unfoldable pub sort_texts : List String → List String
unfolding insert_text
sort_texts [] = []
sort_texts (x ∷ xs) = insert_text x (sort_texts xs)

-- A pending task whose dependencies are all in `completed`.
unfoldable pub can_join : List String → Option Node → Bool
unfolding status_is
can_join completed none = false
can_join completed (some n) =
    status_is n.status pending && allb (λ d. contains d completed) n.dependencies

-- The batch of one round.
unfoldable pub next_batch : Tasks → List String → List String → List String
unfolding sort_texts can_join lookup
next_batch ts remaining completed =
    filterb (λ k. can_join completed (lookup k ts)) (sort_texts remaining)

-- `remaining.discard(tid)` for each of the batch
unfoldable pub without : List String → List String → List String
without batch remaining = filterb (λ k. not (contains k batch)) remaining

-- The rounds of the loop; the completed tasks are added at the end.
unfoldable pub rounds : ℕ → Tasks → List String → List String → Result Invalid (List (List String))
unfolding next_batch without
rounds zero ts remaining completed = err out_of_fuel
rounds (suc n) ts remaining completed =
    let batch = next_batch ts remaining completed in
    let rest = rounds n ts (without batch remaining) (completed ++ batch) in
    if no_items remaining || no_items batch
    then ok []
    else after rest (λ batches. ok (batch ∷ batches))

unfoldable pub get_parallel_batches : Tasks → Result Invalid (List (List String))
unfolding validate rounds keys
get_parallel_batches ts = after (validate ts) (λ _. rounds (suc (length ts)) ts (keys ts) [])
