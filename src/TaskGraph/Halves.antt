-- ===== src/TaskGraph/Halves.antt =====
-- What one round of `get_parallel_batches`, rann_agent/orchestration/task_graph.py, does to the tasks
-- that remain and to those that are completed.
use rann_agent.Prelude.{
  String, ◌≡◌, ◌⊎◌, refl, true, not, ◌||◌, Option, none, some, List, [], ◌∷◌, ◌++◌, filterb, allb,
  All, In, arith, Bool-cases, inl, inr,
}
use rann_agent.Dict.{lookup, keys}
use rann_agent.TaskGraph.Node.{Node, Tasks, pending, status_is, contains, no_items}
use rann_agent.TaskGraph.Texts.{
  All-In, In-filterb, filterb-In, In-sort_texts, sort_texts-In, contains-In, In-contains, In-append,
  append-In,
}
use rann_agent.TaskGraph.Batches.{sort_texts, can_join, next_batch, without}

-- A pending task, whose dependencies are all among these.
abbrev pub CanJoin : Tasks → List String → String → Type 0
CanJoin ts earlier k =
    (n : Node) × (lookup k ts ≡ some n)
    × (n.status ≡ pending)
    × (allb (λ d. contains d earlier) n.dependencies ≡ true)

can_join-CanJoin :
    (ts : Tasks) (earlier : List String) (k : String)
    → can_join earlier (lookup k ts) ≡ true
    → CanJoin ts earlier k
unfolding can_join status_is
can_join-CanJoin ts earlier k h = joined (lookup k ts) refl h
  where
    joined : (x : Option Node) → lookup k ts ≡ x → can_join earlier x ≡ true → CanJoin ts earlier k
    joined none e q = absurd (ground arith)
    joined (some n) e q = (n, e, ground arith, ground arith)

CanJoin-can_join :
    (ts : Tasks) (earlier : List String) (k : String)
    → CanJoin ts earlier k
    → can_join earlier (lookup k ts) ≡ true
unfolding can_join status_is
CanJoin-can_join ts earlier k (n, e, p, q) = rw (e, p) (ground (arith, q))

-- In each round a task of the graph remains or is completed, and never both.
pub record Halves (ts : Tasks) (remaining completed : List String) : Type 0 where
  pub either : (k : String) → In k (keys ts) → In k remaining ⊎ In k completed
  pub apart : (k : String) → In k remaining → ¬ In k completed

module _ (ts : Tasks) (remaining completed : List String)
    (halves : Halves ts remaining completed) where
  batch_remains :
      (k : String)
      → In k (next_batch ts remaining completed)
      → In k remaining × CanJoin ts completed k
  unfolding next_batch
  batch_remains k i =
      let (j, t) = In-filterb _ k (sort_texts remaining) i in
      (In-sort_texts k remaining j, can_join-CanJoin ts completed k t)

  joins_batch :
      (k : String)
      → In k remaining
      → CanJoin ts completed k
      → In k (next_batch ts remaining completed)
  unfolding next_batch
  joins_batch k i c =
      filterb-In _ k (sort_texts remaining) (sort_texts-In k remaining i)
        (CanJoin-can_join ts completed k c)

  pub batch-CanJoin :
      All (λ k. CanJoin ts completed k × (¬ In k completed)) (next_batch ts remaining completed)
  batch-CanJoin =
      All-In _ (next_batch ts remaining completed)
        (λ k i. let (j, c) = batch_remains k i in (c, halves.apart k j))

  -- The batch has every task that can join it.
  pub batch_all :
      (k : String)
      → In k (keys ts)
      → CanJoin ts completed k
      → In k (completed ++ next_batch ts remaining completed)
  batch_all k i c = elim (halves.either k i) [
    | inl j ↦ append-In k completed _ (inr (joins_batch k j c))
    | inr j ↦ append-In k completed _ (inl j)
  ]

  -- Where the rounds end, every task that can join is completed.
  pub ended :
      (no_items remaining || no_items (next_batch ts remaining completed)) ≡ true
      → (k : String) → In k (keys ts)
      → CanJoin ts completed k
      → In k completed
  ended e k i c = elim (halves.either k i) [
    | inr j ↦ j
    | inl j ↦ absurd (empty remaining (next_batch ts remaining completed) e j (joins_batch k j c))
  ]
    where
      empty : (xs ys : List String) → (no_items xs || no_items ys) ≡ true → In k xs → ¬ In k ys
      empty [] ys q a b = a
      empty (x ∷ xs) [] q a b = b
      empty (x ∷ xs) (y ∷ ys) q a b = ground (arith, q)

  pub next-Halves :
      Halves ts
        (without (next_batch ts remaining completed) remaining)
        (completed ++ next_batch ts remaining completed)
  unfolding without
  next-Halves = record { either = divided; apart = disjoint }
    where
      batch : List String
      batch = next_batch ts remaining completed

      divided :
          (k : String)
          → In k (keys ts)
          → In k (filterb (λ x. not (contains x batch)) remaining) ⊎ In k (completed ++ batch)
      divided k i = elim (halves.either k i) [
        | inr j ↦ inr (append-In k completed batch (inl j))
        | inl j ↦ elim (Bool-cases (contains k batch)) [
          | inl e ↦ inr (append-In k completed batch (inr (contains-In k batch e)))
          | inr e ↦ inl (filterb-In (λ x. not (contains x batch)) k remaining j (rw e refl))
        ]
      ]

      disjoint :
          (k : String)
          → In k (filterb (λ x. not (contains x batch)) remaining)
          → ¬ In k (completed ++ batch)
      disjoint k i c =
          let (j, t) = In-filterb (λ x. not (contains x batch)) k remaining i in
          elim (In-append k completed batch c) [
            | inl q ↦ halves.apart k j q
            | inr q ↦ absurd (ground (arith, (rw (In-contains k batch q) at t)))
          ]
