-- ===== src/CrashRecovery/Reconciled.antt =====
-- Which runs `CrashRecovery` of rann_agent/storage/recovery.py resumes.
use rann_agent.Prelude.{
  ℕ, String, ◌≡◌, ◌⊎◌, ◌↔◌, inl, inr, refl, true, false, none, some, List, [], ◌∷◌, length, arith,
  Bool-cases,
}
use rann_agent.Exec.{ok, err}
use rann_agent.CrashRecovery.Defs.{
  database, attribute_error, RunRow, ToolCallRow, Storage, resume, rollback, ReconciliationResult,
  last_or, read_only, by_last, by_calls, reconcile, is_resume, may_resume,
}

-- The last call does no harm if it is repeated: there is none, it succeeded, or it only reads.
abbrev pub IsSafe : List ToolCallRow → Type 0
IsSafe [] = Unit
IsSafe (c ∷ []) = (c.success ≡ true) ⊎ (read_only c.tool_name ≡ true)
IsSafe (c ∷ d ∷ cs) = IsSafe (d ∷ cs)

-- What is answered for the calls of a known run.
abbrev pub Answers : List ToolCallRow → ReconciliationResult → Type 0
Answers cs r =
    (IsSafe cs × (r.action ≡ resume) × (r.resume_from_step ≡ some (length cs)))
    ⊎ ((¬ IsSafe cs) × (r.action ≡ rollback) × (r.resume_from_step ≡ none))

module _ (run_id : String) where
  by_last-Answers :
      (c : ToolCallRow) (n : ℕ)
      → (((c.success ≡ true) ⊎ (read_only c.tool_name ≡ true))
          × ((by_last run_id n c).action ≡ resume)
          × ((by_last run_id n c).resume_from_step ≡ some n))
        ⊎ ((¬ ((c.success ≡ true) ⊎ (read_only c.tool_name ≡ true)))
            × ((by_last run_id n c).action ≡ rollback)
            × ((by_last run_id n c).resume_from_step ≡ none))
  by_last-Answers c n = elim (Bool-cases c.success) [
    | inl e ↦ rw e (inl (inl refl, refl, refl))
    | inr e ↦ elim (Bool-cases (read_only c.tool_name)) [
      | inl f ↦ rw (e, f) (inl (inr refl, refl, refl))
      | inr f ↦ rw (e, f) (inr (neither, refl, refl))
    ]
  ]
    where
      neither : ¬ ((false ≡ true) ⊎ (false ≡ true))
      neither (inl q) = ground (arith, q)
      neither (inr q) = ground (arith, q)

  -- The answer looks at the last call only, and so does IsSafe.
  by_last-calls :
      (c : ToolCallRow) (cs : List ToolCallRow) (n : ℕ)
      → (IsSafe (c ∷ cs)
          × ((by_last run_id n (last_or c cs)).action ≡ resume)
          × ((by_last run_id n (last_or c cs)).resume_from_step ≡ some n))
        ⊎ ((¬ IsSafe (c ∷ cs))
            × ((by_last run_id n (last_or c cs)).action ≡ rollback)
            × ((by_last run_id n (last_or c cs)).resume_from_step ≡ none))
  by_last-calls c [] n = by_last-Answers c n
  by_last-calls c (d ∷ cs) n = by_last-calls d cs n

  by_calls-Answers : (cs : List ToolCallRow) → Answers cs (by_calls run_id cs)
  by_calls-Answers [] = inl (tt, refl, refl)
  by_calls-Answers (c ∷ cs) = by_last-calls c cs (length (c ∷ cs))

  -- Of a storage that gives the run and its calls, reconcile answers to resume after all the calls where
  -- the last one succeeded or only reads, or there is none, and to roll back otherwise, and resume
  -- permits the run exactly in the first case. The `Database` of the program is no such storage: on it
  -- reconcile and resume raise the AttributeError of its missing method, for every run.
  pub reconcile-Answers :
      (s : Storage) (r : RunRow) (cs : List ToolCallRow)
      → s.get_run run_id ≡ ok (some r)
      → s.get_tool_calls run_id ≡ ok cs
      → ((a : ReconciliationResult) × (reconcile (some s) run_id ≡ ok a)
          × Answers cs a
          × (may_resume (some s) run_id ≡ ok (is_resume a.action))
          × ((is_resume a.action ≡ true) ↔ IsSafe cs))
        × (reconcile (some database) run_id ≡ err (attribute_error "get_run"))
        × (may_resume (some database) run_id ≡ err (attribute_error "get_run"))
  unfolding reconcile may_resume
  reconcile-Answers s r cs here calls = (
    (
      by_calls run_id cs,
      rw (here, calls) refl,
      by_calls-Answers cs,
      rw (here, calls) refl,
      permitted (by_calls run_id cs) (by_calls-Answers cs),
    ),
    refl,
    refl,
  )
    where
      permitted :
          (a : ReconciliationResult) → Answers cs a → (is_resume a.action ≡ true) ↔ IsSafe cs
      permitted a (inl (safe, e, f)) = (λ h. safe, λ h. rw e refl)
      permitted a (inr (unsafe, e, f)) =
          (λ h. absurd (ground (arith, (rw e at h))), λ h. absurd (unsafe h))
