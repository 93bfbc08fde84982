-- ===== src/TaskGraph/Blocked.antt =====
-- About `get_blocked_tasks` of rann_agent/orchestration/task_graph.py.
use rann_agent.Prelude.{
  String, ◌≡◌, refl, ◌∙◌, Bool, false, List, [], ◌∷◌, str_eq, filterb, arith, if◌then◌else◌, All,
  Bool-cases, inl, inr,
}
use rann_agent.Dict.{lookup, values}
use rann_agent.TaskGraph.Node.{Node, Tasks, status_is, failed}
use rann_agent.TaskGraph.Edit.{
  has_failed, failed_deps, is_blocked, block, block_all, blocked_nodes, get_blocked_tasks,
}

filterb-ext :
    (p q : String → Bool)
    → ((d : String) → p d ≡ q d)
    → (xs : List String) → filterb p xs ≡ filterb q xs
filterb-ext p q h [] = refl
filterb-ext p q h (x ∷ xs) = rw (h x, filterb-ext p q h xs) refl

-- A task does not become failed, nor stop being it.
failed_kept :
    (all : Tasks) (n : Node)
    → status_is (if is_blocked all n then block all n else n).status failed
      ≡ status_is n.status failed
unfolding is_blocked block status_is
failed_kept all n = ground arith

has_failed-block_all :
    (all : Tasks) (d : String) (ts : Tasks)
    → has_failed (lookup d (block_all all ts)) ≡ has_failed (lookup d ts)
unfolding block_all lookup
has_failed-block_all all d [] = refl
has_failed-block_all all d ((k, n) ∷ ts) = elim (Bool-cases (str_eq k d)) [
  | inl e ↦ rw e (failed_kept all n)
  | inr e ↦ rw e (has_failed-block_all all d ts)
]

failed_deps-block_all : (ts : Tasks) (n : Node) → failed_deps (block_all ts ts) n ≡ failed_deps ts n
unfolding failed_deps
failed_deps-block_all ts n = filterb-ext _ _ (λ d. has_failed-block_all ts d ts) n.dependencies

is_blocked-block_all : (ts : Tasks) (n : Node) → is_blocked (block_all ts ts) n ≡ is_blocked ts n
unfolding is_blocked
is_blocked-block_all ts n = rw (failed_deps-block_all ts n) refl

not_blocked :
    (all : Tasks) (n : Node) → is_blocked all (if is_blocked all n then block all n else n) ≡ false
not_blocked all n = elim (Bool-cases (is_blocked all n)) [
  | inl e ↦ rw e (unfold is_blocked block status_is in refl)
  | inr e ↦ rw e e
]

none_blocked :
    (ts us : Tasks) → All (λ n. is_blocked (block_all ts ts) n ≡ false) (values (block_all ts us))
unfolding block_all values
none_blocked ts [] = tt
none_blocked ts ((k, n) ∷ us) = (
  is_blocked-block_all ts (if is_blocked ts n then block ts n else n) ∙ not_blocked ts n,
  none_blocked ts us,
)

block_all-none :
    (all ts : Tasks)
    → All (λ n. is_blocked all n ≡ false) (values ts)
    → (block_all all ts ≡ ts) × (blocked_nodes all ts ≡ [])
unfolding block_all blocked_nodes values
block_all-none all [] h = (refl, refl)
block_all-none all ((k, n) ∷ ts) (h, hs) =
    let (a, b) = block_all-none all ts hs in (rw (h, a) refl, rw (h, b) refl)

-- After `get_blocked_tasks` no pending task has a failed dependency, and a second call returns no
-- task and changes nothing.
pub get_blocked_tasks_twice :
    (ts : Tasks)
    → All (λ n. is_blocked (get_blocked_tasks ts).0 n ≡ false) (values (get_blocked_tasks ts).0)
      × (get_blocked_tasks (get_blocked_tasks ts).0 ≡ ((get_blocked_tasks ts).0, []))
unfolding get_blocked_tasks
get_blocked_tasks_twice ts =
    let h = none_blocked ts ts in
    let (a, b) = block_all-none (block_all ts ts) (block_all ts ts) h in (h, rw (a, b) refl)
