-- ===== src/TaskGraph/Layers.antt =====
-- About `get_parallel_batches` of rann_agent/orchestration/task_graph.py.
use rann_agent.Prelude.{
  ℕ, zero, suc, ◌<◌, String, ◌≡◌, refl, Bool, true, false, not, ◌||◌, List, [], ◌∷◌, ◌++◌, length,
  str_eq, All, In, arith, Bool-cases, inl, inr, eq_refl, subst, sym, length-filterb-le, ◌∙◌, ap,
}
use rann_agent.Exec.{Result, ok, err}
use rann_agent.Dict.{keys}
use rann_agent.TaskGraph.Node.{Tasks, contains, no_items}
use rann_agent.TaskGraph.Cycles.{Invalid, after, validate}
use rann_agent.TaskGraph.Fuel.{Explained, length-keys}
use rann_agent.TaskGraph.Valid.{IsDict, HasOrder, Verdict, validate-Verdict}
use rann_agent.TaskGraph.Texts.{In-filterb, In-sort_texts}
use rann_agent.TaskGraph.Batches.{sort_texts, next_batch, without, rounds, get_parallel_batches}
use rann_agent.TaskGraph.Halves.{CanJoin, Halves, batch-CanJoin, batch_all, ended, next-Halves}

-- From the tasks of the earlier batches on: each batch has a task, its tasks are pending, have their
-- dependencies in batches before it and stand in none of these, and it has all such tasks; behind the
-- last batch there is no such task any more.
abbrev pub Layered : Tasks → List String → List (List String) → Type 0
Layered ts earlier [] = (k : String) → In k (keys ts) → CanJoin ts earlier k → In k earlier
Layered ts earlier (b ∷ bs) =
    (0 < length b)
    × All (λ k. CanJoin ts earlier k × (¬ In k earlier)) b
    × ((k : String) → In k (keys ts) → CanJoin ts earlier k → In k (earlier ++ b))
    × Layered ts (earlier ++ b) bs

-- A round whose batch has a task that remains leaves fewer tasks.
length-without-lt :
    (x : String) (rest remaining : List String)
    → In x remaining
    → length (without (x ∷ rest) remaining) < length remaining
unfolding without
length-without-lt x rest (y ∷ ys) (inl e) =
    rw (subst (λ z. str_eq x z ≡ true) (sym e) (eq_refl x))
      (omega (arith, length-filterb-le (λ k. not (contains k (x ∷ rest))) ys))
length-without-lt x rest (y ∷ ys) (inr i) = ground (arith, length-without-lt x rest ys i)
length-without-lt x rest [] i = absurd i

next_batch-lt :
    (ts : Tasks) (remaining completed : List String)
    → no_items (next_batch ts remaining completed) ≡ false
    → (0 < length (next_batch ts remaining completed))
      × (length (without (next_batch ts remaining completed) remaining) < length remaining)
unfolding next_batch
next_batch-lt ts remaining completed h = nonempty (next_batch ts remaining completed) refl h
  where
    nonempty :
        (b : List String)
        → next_batch ts remaining completed ≡ b
        → no_items b ≡ false
        → (0 < length b) × (length (without b remaining) < length remaining)
    nonempty [] e q = absurd (ground arith)
    nonempty (x ∷ rest) e q = (
      omega arith,
      length-without-lt x rest remaining (
          In-sort_texts x remaining
            (In-filterb _ x (sort_texts remaining) (subst (λ b. In x b) (sym e) (inl refl))).0),
    )

-- What the rounds give, with fuel for more rounds than tasks are left.
abbrev pub Rounds : Tasks → List String → Result Invalid (List (List String)) → Type 0
Rounds ts completed (ok bs) = Layered ts completed bs
Rounds ts completed (err e) = ⊥

add_batch :
    (ts : Tasks) (completed b : List String) (r : Result Invalid (List (List String)))
    → 0 < length b
    → All (λ k. CanJoin ts completed k × (¬ In k completed)) b
    → ((k : String) → In k (keys ts) → CanJoin ts completed k → In k (completed ++ b))
    → Rounds ts (completed ++ b) r
    → Rounds ts completed (after r (λ bs. ok (b ∷ bs)))
add_batch ts completed b (ok bs) z h a r = (z, h, a, r)
add_batch ts completed b (err e) z h a r = r

rounds-Rounds :
    (n : ℕ) (ts : Tasks) (remaining completed : List String)
    → length remaining < n
    → Halves ts remaining completed
    → Rounds ts completed (rounds n ts remaining completed)
unfolding rounds
rounds-Rounds zero ts remaining completed h v = absurd (omega arith)
rounds-Rounds (suc n) ts remaining completed h v =
    elim (Bool-cases (no_items remaining || no_items (next_batch ts remaining completed))) [
      | inl e ↦ rw e (ended ts remaining completed v e)
      | inr e ↦
          let (z, fewer) = next_batch-lt ts remaining completed (ground arith) in
          rw e (
            add_batch ts completed (next_batch ts remaining completed) _ z
              (batch-CanJoin ts remaining completed v) (batch_all ts remaining completed v)
              (rounds-Rounds n ts _ _ (omega arith) (next-Halves ts remaining completed v)))
    ]

-- What `get_parallel_batches` comes to.
abbrev pub BatchesAnswer : Tasks → Result Invalid (List (List String)) → Type 0
BatchesAnswer ts (ok bs) = (validate ts ≡ ok true) × HasOrder ts × Layered ts [] bs
BatchesAnswer ts (err e) = (validate ts ≡ err e) × Explained ts e

-- On a dictionary, `get_parallel_batches` raises what `validate` raises. Where `validate` returns true,
-- it returns batches, none of them empty, such that each task of a batch is pending, has all its
-- dependencies in earlier batches and stands in none of these; each batch has every such task of the
-- graph, and behind the last one there is no such task any more.
pub get_parallel_batches-BatchesAnswer :
    (ts : Tasks) → IsDict ts → BatchesAnswer ts (get_parallel_batches ts)
unfolding get_parallel_batches
get_parallel_batches-BatchesAnswer ts d = answer (validate ts) refl (validate-Verdict ts d)
  where
    given :
        (r : Result Invalid (List (List String)))
        → validate ts ≡ ok true
        → HasOrder ts
        → Rounds ts [] r
        → BatchesAnswer ts r
    given (ok bs) v o h = (v, o, h)
    given (err e) v o h = absurd h

    at_first : Halves ts (keys ts) []
    at_first = record { either = λ k i. inl i; apart = λ k i j. j }

    answer :
        (v : Result Invalid Bool)
        → validate ts ≡ v
        → Verdict ts v
        → BatchesAnswer ts (after v (λ _. rounds (suc (length ts)) ts (keys ts) []))
    answer (err e) q h = (q, h)
    answer (ok b) q (t, o) =
        given _ (q ∙ ap ok t) o
          (rounds-Rounds (suc (length ts)) ts (keys ts) [] (omega (arith, length-keys ts)) at_first)
