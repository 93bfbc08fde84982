-- ===== src/TaskGraph/Valid.antt =====
-- About `validate` of rann_agent/orchestration/task_graph.py.
use rann_agent.Prelude.{
  suc, String, ◌≡◌, refl, Bool, true, Option, some, List, [], ◌∷◌, arith, All, In, inl, inr, length,
  is_some, subst, sym, ap, ◌∙◌,
}
use rann_agent.Exec.{Result, ok, err}
use rann_agent.Dict.{lookup, has_key, keys}
use rann_agent.TaskGraph.Node.{Node, Tasks}
use rann_agent.TaskGraph.Cycles.{
  Color, white, grey, black, Colors, Invalid, after, dfs, all_white, detect_cycles, check_known,
  check_all_known, validate,
}
use rann_agent.TaskGraph.Fuel.{Explained, Fair, detect_cycles-Fair}
use rann_agent.TaskGraph.Order.{IsOrder, search_all_right, dfs-IsRight}

lookup-all_white-ne :
    (ts : Tasks) (k : String) (c : Color) → lookup k (all_white ts) ≡ some c → c ≡ white
unfolding lookup all_white
lookup-all_white-ne [] k c h = cc
lookup-all_white-ne ((j, n) ∷ ts) k c h = ground (arith, lookup-all_white-ne ts k c)

-- An order of the whole graph, in which every task stands before its dependencies.
abbrev pub HasOrder : Tasks → Type 0
HasOrder ts = (order : List String) × IsOrder ts order × All (λ k. In k order) (keys ts)

detect_cycles-HasOrder : (ts : Tasks) (c : Colors) → detect_cycles ts ≡ ok c → HasOrder ts
unfolding detect_cycles
detect_cycles-HasOrder ts c h =
    let (order, s, all) =
      search_all_right ts (dfs (suc (length ts)) ts) (dfs-IsRight ts (suc (length ts))) (keys ts)
        (all_white ts) c [] h tt (λ k q. ground (arith, lookup-all_white-ne ts k black q))
        (λ k q. ground (arith, lookup-all_white-ne ts k grey q)) in
    (order, s.is_order, all)

-- A key stands once, as in Python's dictionaries.
abbrev pub IsDict : Tasks → Type 0
IsDict ts = All (λ (item : String × Node). lookup item.0 ts ≡ some item.1) ts

In-has_key :
    (ts : Tasks) (order : List String) (k : String)
    → IsOrder ts order
    → In k order
    → has_key k ts ≡ true
unfolding has_key
In-has_key ts (x ∷ order) k (found, o) (inl e) =
    subst (λ y. is_some (lookup y ts) ≡ true) e (ap is_some found.1)
In-has_key ts (x ∷ order) k (found, o) (inr i) = In-has_key ts order k o i
In-has_key ts [] k o i = absurd i

All-later :
    (x : String) (order : List String) (ds : List String)
    → All (λ d. In d order) ds
    → All (λ d. In d (x ∷ order)) ds
All-later x order [] h = tt
All-later x order (d ∷ ds) (h, hs) = (inr h, All-later x order ds hs)

some_same : (m n : Node) → ◌≡◌ {A = Option Node} (some m) (some n) → m ≡ n
some_same m n h = cc

-- The dependencies of a task in the order are in it.
dependencies-In :
    (ts : Tasks) (order : List String) (k : String) (n : Node)
    → IsOrder ts order
    → In k order
    → lookup k ts ≡ some n
    → All (λ d. In d order) n.dependencies
dependencies-In ts (x ∷ order) k n ((m, found, deps), o) (inl e) h =
    let same = some_same m n (sym found ∙ ap (λ y. lookup y ts) e ∙ h) in
    All-later x order n.dependencies
      (subst (λ (y : Node). All (λ d. In d order) y.dependencies) same deps)
dependencies-In ts (x ∷ order) k n (found, o) (inr i) h =
    All-later x order n.dependencies (dependencies-In ts order k n o i h)
dependencies-In ts [] k n o i h = absurd i

check_known-ok :
    (ts : Tasks) (order : List String) (k : String) (ds : List String)
    → IsOrder ts order
    → All (λ d. In d order) ds
    → check_known ts k ds ≡ ok true
unfolding check_known
check_known-ok ts order k [] o h = refl
check_known-ok ts order k (d ∷ ds) o (h, hs) =
    rw (In-has_key ts order d o h) (check_known-ok ts order k ds o hs)

check_all_known-ok :
    (ts us : Tasks) (order : List String)
    → IsOrder ts order
    → All (λ (item : String × Node). lookup item.0 ts ≡ some item.1) us
    → All (λ k. In k order) (keys us)
    → check_all_known ts us ≡ ok true
unfolding check_all_known keys
check_all_known-ok ts [] order o h i = refl
check_all_known-ok ts ((k, n) ∷ us) order o (h, hs) (i, rest) =
    rw (check_known-ok ts order k n.dependencies o (dependencies-In ts order k n o i h))
      (check_all_known-ok ts us order o hs rest)

-- How `validate` ends.
abbrev pub Verdict : Tasks → Result Invalid Bool → Type 0
Verdict ts (ok b) = (b ≡ true) × HasOrder ts
Verdict ts (err e) = Explained ts e

-- On a dictionary, `validate` returns true only where the graph has an order in which every task
-- stands before its dependencies, all of them tasks of the graph; else it raises a cycle, for a task
-- that is there, or a KeyError for one that is not. It never raises for an unknown dependency, nor
-- does the search run out of fuel.
pub validate-Verdict : (ts : Tasks) → IsDict ts → Verdict ts (validate ts)
unfolding validate
validate-Verdict ts d = judged (detect_cycles ts) refl
  where
    judged :
        (r : Result Invalid Colors)
        → detect_cycles ts ≡ r
        → Verdict ts (after r (λ _. check_all_known ts ts))
    judged (err e) h = subst (Fair ts (all_white ts)) h (detect_cycles-Fair ts)
    judged (ok c) h =
        let (order, o, all) = detect_cycles-HasOrder ts c h in
        rw (check_all_known-ok ts ts order o d all) (refl, (order, o, all))
