-- ===== src/TaskGraph/Cycles.antt =====
-- `_detect_cycles` and `validate` of rann_agent/orchestration/task_graph.py. The search recurses on fuel; Python's own limit of
-- recursion is not modelled.
use rann_agent.Prelude.{
  ℕ, zero, suc, String, Bool, true, Option, none, some, List, [], ◌∷◌, length, if◌then◌else◌,
}
use rann_agent.Exec.{Result, ok, err}
use rann_agent.Dict.{Dict, lookup, has_key, insert, keys}
use rann_agent.TaskGraph.Node.{Node, Tasks}

pub data Color : Type 0 where
  white grey black : Color

abbrev pub Colors : Type 0
Colors = Dict Color

-- `color.get(dep, WHITE)`
abbrev pub color_of : Option Color → Color
color_of none = white
color_of (some c) = c

-- How a search ends that does not return. `out_of_fuel` is none of Python's.
pub data Invalid : Type 0 where
  cycle key_error : String → Invalid
  unknown_dependency : (task dependency : String) → Invalid
  out_of_fuel : Invalid

abbrev pub after : {A B : Type 0} → Result Invalid A → (A → Result Invalid B) → Result Invalid B
after (ok a) f = f a
after (err e) f = err e

-- A call of `dfs` on a task.
abbrev pub Search : Type 0
Search = String → Colors → Result Invalid Colors

-- One dependency of `tid`, by its color.
abbrev pub meet : Search → String → String → Color → Colors → Result Invalid Colors
meet rec tid d grey c = err (cycle tid)
meet rec tid d white c = rec d c
meet rec tid d black c = ok c

-- The loop over the dependencies.
unfoldable pub visit : Search → String → List String → Colors → Result Invalid Colors
unfolding lookup
visit rec tid [] c = ok c
visit rec tid (d ∷ ds) c = after (meet rec tid d (color_of (lookup d c)) c) (visit rec tid ds)

abbrev pub enter : Search → String → Option Node → Colors → Result Invalid Colors
enter rec tid none c = err (key_error tid)
enter rec tid (some n) c =
    after (visit rec tid n.dependencies (insert tid grey c)) (λ c'. ok (insert tid black c'))

unfoldable pub dfs : ℕ → Tasks → Search
unfolding lookup visit insert
dfs zero ts tid c = err out_of_fuel
dfs (suc n) ts tid c = enter (dfs n ts) tid (lookup tid ts) c

-- A task at the top: it is searched if it is still white.
abbrev pub start : Search → String → Color → Colors → Result Invalid Colors
start rec k white c = rec k c
start rec k grey c = ok c
start rec k black c = ok c

unfoldable pub search_all : Search → List String → Colors → Result Invalid Colors
unfolding lookup
search_all rec [] c = ok c
search_all rec (k ∷ ks) c = after (start rec k (color_of (lookup k c)) c) (search_all rec ks)

-- `{tid: WHITE for tid in self.tasks}`
unfoldable pub all_white : Tasks → Colors
all_white [] = []
all_white ((k, n) ∷ ts) = (k, white) ∷ all_white ts

unfoldable pub detect_cycles : Tasks → Result Invalid Colors
unfolding search_all dfs keys all_white
detect_cycles ts = search_all (dfs (suc (length ts)) ts) (keys ts) (all_white ts)

-- The loops over the tasks and their dependencies that look for unknown ones.
unfoldable pub check_known : Tasks → String → List String → Result Invalid Bool
unfolding has_key
check_known all k [] = ok true
check_known all k (d ∷ ds) =
    if has_key d all then check_known all k ds else err (unknown_dependency k d)

unfoldable pub check_all_known : Tasks → Tasks → Result Invalid Bool
unfolding check_known
check_all_known all [] = ok true
check_all_known all ((k, n) ∷ ts) =
    after (check_known all k n.dependencies) (λ _. check_all_known all ts)

unfoldable pub validate : Tasks → Result Invalid Bool
unfolding detect_cycles check_all_known
validate ts = after (detect_cycles ts) (λ _. check_all_known ts ts)
