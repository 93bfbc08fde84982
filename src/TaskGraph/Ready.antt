-- ===== src/TaskGraph/Ready.antt =====
-- About `get_ready_tasks` of rann_agent/orchestration/task_graph.py.
use rann_agent.Prelude.{
  String, ◌≡◌, ◌↔◌, ◌⊎◌, refl, ap, ◌∙◌, Bool, true, false, List, [], ◌∷◌, str_eq, filterb, arith,
  All, In, Bool-cases, inl, inr, subst, sym, allb, eq_iff, eq_refl,
}
use rann_agent.Dict.{values}
use rann_agent.TaskGraph.Node.{
  Node, Tasks, status_is, pending, completed, can_run, contains, ids_with, more_urgent, insert_node,
  sort_nodes, get_ready_tasks,
}

-- A task with this id has been completed.
abbrev pub IsDone : Tasks → String → Type 0
IsDone ts d = (n : Node) × In (d, n) ts × (n.status ≡ completed)

is_completed : (n : Node) → (status_is n.status completed ≡ true) ↔ (n.status ≡ completed)
unfolding status_is
is_completed n = (λ h. ground arith, λ h. ground arith)

-- The set of the completed ids is right.
IsDone-of : (ts : Tasks) (d : String) → contains d (ids_with completed ts) ≡ true → IsDone ts d
unfolding ids_with
IsDone-of [] d h = cc
IsDone-of ((k, n) ∷ ts) d h = elim (Bool-cases (status_is n.status completed)) [
  | inr e ↦ let (m, i, c) = IsDone-of ts d (rw e at h) in (m, inr i, c)
  | inl e ↦ elim (Bool-cases (str_eq k d)) [
    | inl same ↦ (n, inl (ap (λ x. (x, n)) (ground (arith, eq_iff k d))), (is_completed n).0 e)
    | inr other ↦ let (m, i, c) = IsDone-of ts d (rw (e, other) at h) in (m, inr i, c)
  ]
]

contains-IsDone :
    (ts : Tasks) (d : String) → IsDone ts d → contains d (ids_with completed ts) ≡ true
unfolding ids_with
contains-IsDone [] d (m, i, c) = absurd i
contains-IsDone ((k, n) ∷ ts) d (m, inl e, c) =
    let done = (is_completed n).1 (ap (λ (x : String × Node). x.1.status) e ∙ c) in
    let same =
      subst (λ x. str_eq x d ≡ true) (sym (ap (λ (x : String × Node). x.0) e)) (eq_refl d) in
    rw (done, same) refl
contains-IsDone ((k, n) ∷ ts) d (m, inr i, c) = ground (arith, contains-IsDone ts d (m, i, c))

-- What it means that a task is ready: it is pending, and each dependency has been completed.
abbrev pub IsReady : Tasks → Node → Type 0
IsReady ts n = (n.status ≡ pending) × All (IsDone ts) n.dependencies

allb_iff :
    (p : String → Bool) (P : String → Type 0)
    → ((x : String) → (p x ≡ true) ↔ P x)
    → (xs : List String) → (allb p xs ≡ true) ↔ All P xs
allb_iff p P h [] = (λ _. tt, λ _. refl)
allb_iff p P h (x ∷ xs) = (
  λ e. (ground (arith, h x), (allb_iff p P h xs).0 (ground arith)),
  λ (a, rest). rw ((h x).1 a) ((allb_iff p P h xs).1 rest),
)

can_run_exact : (ts : Tasks) (n : Node) → (can_run (ids_with completed ts) n ≡ true) ↔ IsReady ts n
unfolding can_run status_is
can_run_exact ts n = elim (Bool-cases (status_is n.status pending)) [
  | inl e ↦
      let deps =
        allb_iff _ (IsDone ts) (λ d. (IsDone-of ts d, contains-IsDone ts d)) n.dependencies in
      (λ h. (ground arith, deps.0 (rw e at h)), λ (p, h). rw e (deps.1 h))
  | inr e ↦ (λ h. ground arith, λ (p, h). ground arith)
]

In-insert_node : (n m : Node) (ns : List Node) → In n (insert_node m ns) ↔ ((m ≡ n) ⊎ In n ns)
unfolding insert_node
In-insert_node n m [] = (λ h. h, λ h. h)
In-insert_node n m (x ∷ ns) = ground (arith, In-insert_node n m ns)

In-sort_nodes : (n : Node) (ns : List Node) → In n (sort_nodes ns) ↔ In n ns
unfolding sort_nodes
In-sort_nodes n [] = (λ h. h, λ h. h)
In-sort_nodes n (m ∷ ns) = ground (arith, In-insert_node n m (sort_nodes ns), In-sort_nodes n ns)

In-filterb :
    (p : Node → Bool) (n : Node) (ns : List Node) → In n (filterb p ns) ↔ (In n ns × (p n ≡ true))
In-filterb p n [] = (λ h. absurd h, λ h. absurd h.0)
In-filterb p n (m ∷ ns) = ground (arith, In-filterb p n ns)

-- No task stands behind one that it is more urgent than.
abbrev pub Ordered : List Node → Type 0
Ordered [] = Unit
Ordered (n ∷ ns) = All (λ m. more_urgent m n ≡ false) ns × Ordered ns

more_urgent_trans :
    (a b c : Node) → more_urgent b a ≡ false → more_urgent c b ≡ false → more_urgent c a ≡ false
unfolding more_urgent
more_urgent_trans a b c h k = ground arith

more_urgent_asym : (a b : Node) → more_urgent a b ≡ true → more_urgent b a ≡ false
unfolding more_urgent
more_urgent_asym a b h = ground arith

All-behind :
    (a b : Node) (ns : List Node)
    → more_urgent b a ≡ false
    → All (λ m. more_urgent m b ≡ false) ns
    → All (λ m. more_urgent m a ≡ false) ns
All-behind a b [] h k = tt
All-behind a b (c ∷ ns) h (k, ks) = (more_urgent_trans a b c h k, All-behind a b ns h ks)

All-insert_node :
    (P : Node → Type 0) (m : Node) (ns : List Node) → P m → All P ns → All P (insert_node m ns)
unfolding insert_node
All-insert_node P m [] h hs = (h, tt)
All-insert_node P m (x ∷ ns) h (k, ks) = ground (arith, All-insert_node P m ns h ks)

insert_node-Ordered : (n : Node) (ns : List Node) → Ordered ns → Ordered (insert_node n ns)
unfolding insert_node
insert_node-Ordered n [] h = (tt, tt)
insert_node-Ordered n (m ∷ ns) (h, hs) = elim (Bool-cases (more_urgent m n)) [
  | inl e ↦ rw e (
    All-insert_node (λ x. more_urgent x m ≡ false) n ns (more_urgent_asym m n e) h,
    insert_node-Ordered n ns hs,
  )
  | inr e ↦ rw e ((e, All-behind n m ns e h), (h, hs))
]

sort_nodes-Ordered : (ns : List Node) → Ordered (sort_nodes ns)
unfolding sort_nodes
sort_nodes-Ordered [] = tt
sort_nodes-Ordered (n ∷ ns) = insert_node-Ordered n (sort_nodes ns) (sort_nodes-Ordered ns)

-- `get_ready_tasks` gives exactly the pending tasks of the graph whose dependencies have all been
-- completed, and none behind a less urgent one.
pub get_ready_tasks_exact :
    (ts : Tasks)
    → ((n : Node) → In n (get_ready_tasks ts) ↔ (In n (values ts) × IsReady ts n))
      × Ordered (get_ready_tasks ts)
unfolding get_ready_tasks
get_ready_tasks_exact ts = (λ n. found n, sort_nodes-Ordered _)
  where
    able : Node → Bool
    able = can_run (ids_with completed ts)

    found :
        (n : Node)
        → In n (sort_nodes (filterb able (values ts))) ↔ (In n (values ts) × IsReady ts n)
    found n =
        let sorted = In-sort_nodes n (filterb able (values ts)) in
        let kept = In-filterb able n (values ts) in
        let runs = can_run_exact ts n in
        (
          λ h. let (i, r) = kept.0 (sorted.0 h) in (i, runs.0 r),
          λ (i, r). sorted.1 (kept.1 (i, runs.1 r)),
        )
