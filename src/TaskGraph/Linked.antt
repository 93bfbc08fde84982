-- ===== src/TaskGraph/Linked.antt =====
-- About `link` of rann_agent/orchestration/task_graph.py.
use rann_agent.Prelude.{
  String, ◌≡◌, refl, ◌∙◌, true, false, Option, none, some, List, [], ◌∷◌, ◌++◌, ◌⊎◌, str_eq, arith,
  if◌then◌else◌, Bool-cases, Option-cases, inl, inr, eq_iff, eq_refl,
}
use rann_agent.Exec.{Result, ok, err}
use rann_agent.Dict.{lookup, has_key, lookup-insert}
use rann_agent.TaskGraph.Node.{Node, Tasks, contains}
use rann_agent.TaskGraph.Edit.{GraphError, not_found, change, append_new, link}

map_node : (Node → Node) → Option Node → Option Node
map_node f none = none
map_node f (some n) = some (f n)

lookup-change :
    (k j : String) (f : Node → Node) (ts : Tasks)
    → lookup j (change k f ts) ≡ (if str_eq k j then map_node f (lookup j ts) else lookup j ts)
unfolding change map_node
lookup-change k j f ts = elim (Option-cases (lookup k ts)) [
  | inl e ↦ ground (arith, eq_iff k j, e)
  | inr (n, e) ↦ ground (arith, eq_iff k j, e, lookup-insert k j (f n) ts)
]

contains-append : (x : String) (xs : List String) → contains x (xs ++ x ∷ []) ≡ true
contains-append x [] = rw (eq_refl x) refl
contains-append x (y ∷ xs) = ground (arith, contains-append x xs)

contains-append_new : (x : String) (xs : List String) → contains x (append_new x xs) ≡ true
unfolding append_new
contains-append_new x xs = elim (Bool-cases (contains x xs)) [
  | inl e ↦ rw e e
  | inr e ↦ rw e (contains-append x xs)
]

-- The task `b` depends on `a`, and `a` has `b` among its dependents.
abbrev pub Edge : String → String → Tasks → Type 0
Edge a b ts =
    ((n : Node) × (lookup b ts ≡ some n) × (contains a n.dependencies ≡ true))
    × ((n : Node) × (lookup a ts ≡ some n) × (contains b n.dependents ≡ true))

-- What `link` answers: an error that names the first of the two tasks that is not there, or a graph
-- with the edge, in which every other task is as before.
abbrev pub LinkAnswer : String → String → Tasks → Result GraphError Tasks → Type 0
LinkAnswer a b ts (err e) =
    ((has_key a ts ≡ false) × (e ≡ not_found a))
    ⊎ ((has_key a ts ≡ true) × (has_key b ts ≡ false) × (e ≡ not_found b))
LinkAnswer a b ts (ok ts') =
    (has_key a ts ≡ true)
    × (has_key b ts ≡ true)
    × Edge a b ts'
    × ((k : String) → str_eq a k ≡ false → str_eq b k ≡ false → lookup k ts' ≡ lookup k ts)

there : (k : String) (ts : Tasks) → has_key k ts ≡ true → (n : Node) × (lookup k ts ≡ some n)
unfolding has_key
there k ts h = elim (Option-cases (lookup k ts)) [ inl e ↦ ground (arith, e) | inr found ↦ found ]

add_dependency : String → Node → Node
add_dependency a n = record n { dependencies = append_new a n.dependencies }

add_dependent : String → Node → Node
add_dependent b n = record n { dependents = append_new b n.dependents }

linked : String → String → Tasks → Tasks
linked a b ts = change a (add_dependent b) (change b (add_dependency a) ts)

lookup-change_self :
    (k : String) (f : Node → Node) (ts : Tasks) (n : Node)
    → lookup k ts ≡ some n
    → lookup k (change k f ts) ≡ some (f n)
unfolding map_node
lookup-change_self k f ts n h = rw (lookup-change, eq_refl k, h) refl

lookup-change_ne :
    (k j : String) (f : Node → Node) (ts : Tasks)
    → str_eq k j ≡ false
    → lookup j (change k f ts) ≡ lookup j ts
lookup-change_ne k j f ts h = rw (lookup-change, h) refl

-- After a change of one task, another is as it was, or is that one and has changed.
lookup-change_kept :
    (k j : String) (f : Node → Node) (ts : Tasks) (n : Node)
    → lookup j ts ≡ some n
    → (lookup j (change k f ts) ≡ some n) ⊎ (lookup j (change k f ts) ≡ some (f n))
unfolding map_node
lookup-change_kept k j f ts n h = elim (Bool-cases (str_eq k j)) [
  | inl e ↦ inr (rw (lookup-change, e, h) refl)
  | inr e ↦ inl (rw (lookup-change, e, h) refl)
]

linked-Edge :
    (a b : String) (ts : Tasks)
    → has_key a ts ≡ true
    → has_key b ts ≡ true
    → Edge a b (linked a b ts)
unfolding linked add_dependency add_dependent
linked-Edge a b ts ha hb = (dependency, dependent)
  where
    ts₁ : Tasks
    ts₁ = change b (add_dependency a) ts

    dependency :
        (n : Node) × (lookup b (linked a b ts) ≡ some n) × (contains a n.dependencies ≡ true)
    dependency =
        let (n, e) = there b ts hb in
        elim (lookup-change_kept a b (add_dependent b) ts₁ (add_dependency a n)
          (lookup-change_self b (add_dependency a) ts n e)) [
            | inl q ↦ (add_dependency a n, q, contains-append_new a n.dependencies)
            | inr q ↦
                (add_dependent b (add_dependency a n), q, contains-append_new a n.dependencies)
          ]

    dependent : (n : Node) × (lookup a (linked a b ts) ≡ some n) × (contains b n.dependents ≡ true)
    dependent =
        let (n, e) = there a ts ha in
        elim (lookup-change_kept b a (add_dependency a) ts n e) [
          | inl q ↦ (
            add_dependent b n,
            lookup-change_self a (add_dependent b) ts₁ n q,
            contains-append_new b n.dependents,
          )
          | inr q ↦ (
            add_dependent b (add_dependency a n),
            lookup-change_self a (add_dependent b) ts₁ (add_dependency a n) q,
            contains-append_new b n.dependents,
          )
        ]

linked_others :
    (a b k : String) (ts : Tasks)
    → str_eq a k ≡ false
    → str_eq b k ≡ false
    → lookup k (linked a b ts) ≡ lookup k ts
unfolding linked
linked_others a b k ts ha hb =
    lookup-change_ne a k (add_dependent b) _ ha ∙ lookup-change_ne b k (add_dependency a) ts hb

-- `link` of `a` and `b` raises if one of the tasks is not there, for the first that is not; else `b`
-- depends on `a` afterwards, `a` has `b` among its dependents, and every other task is as before.
pub link-LinkAnswer : (a b : String) (ts : Tasks) → LinkAnswer a b ts (link a b ts)
unfolding link linked add_dependency add_dependent
link-LinkAnswer a b ts = elim (Bool-cases (has_key a ts)) [
  | inr na ↦ rw na (inl (na, refl))
  | inl ha ↦ elim (Bool-cases (has_key b ts)) [
    | inr nb ↦ rw (ha, nb) (inr (ha, nb, refl))
    | inl hb ↦ rw (ha, hb) (ha, hb, linked-Edge a b ts ha hb, λ k. linked_others a b k ts)
  ]
]
