-- ===== src/Rollback/Outcome.antt =====
-- About `execute_rollback` of rann_agent/core/rollback_engine.py: the steps and the status that it leaves.
use rann_agent.Prelude.{
  ℕ, zero, suc, ◌<◌, String, ◌≡◌, ◌⊎◌, ◌↔◌, inl, inr, refl, ap, Bool, true, false, Option, none,
  some, List, [], ◌∷◌, length, str_eq, All, arith, Bool-cases,
}
use rann_agent.Exec.{Result, ok, err, Exec, pure, continue, ◌>>=◌}
use rann_agent.Json.{get_field}
use rann_agent.Rollback.Types.{
  RollbackType, file_snapshot, file_delete, command_reverse, deployment_rollback, directory_cleanup,
  database_rollback, git_revert, environment_restore, RollbackStatus, pending, in_progress,
  completed, failed, FileSnapshot, RollbackStep, RollbackProcedure,
}
use rann_agent.Rollback.World.{Command, returned, raised, World, System, write_text}
use rann_agent.Rollback.Execute.{
  status_is, ended, Handler, rollback_file_snapshot, rollback_file_delete, rollback_command_reverse,
  rollback_deployment, rollback_directory_cleanup, rollback_git_revert, rollback_environment,
  put_back, recreate, after_command, after_rmtree, caught, env_changes, handle, settled,
  execute_step, is_done, turn_of, turn, run_steps, having, verdict, execute,
}

-- A handler that succeeds leaves its step completed or skipped, one that fails leaves it failed.
abbrev pub Settles : Result String (Bool × RollbackStep) × World → Type 0
Settles (ok (true, s), w) = is_done s ≡ true
Settles (ok (false, s), w) = s.status ≡ failed
Settles (err e, w) = Unit

abbrev SettlesAll : Handler → Type 0
SettlesAll h = (w : World) → Settles (h w)

module _ (sys : System) where
  then_done :
      (m : Exec World String (Unit {0})) (s : RollbackStep)
      → is_done s ≡ true
      → SettlesAll (m >>= λ _. pure (true, s))
  then_done m s h w = settles (m w).0 (m w).1
    where
      settles :
          (r : Result String (Unit {0})) (v : World) → Settles (continue r (λ _. pure (true, s)) v)
      settles (ok x) v = h
      settles (err e) v = tt

  command-Settles :
      (f : String → String) (s : RollbackStep) (c : Command × World) → Settles (after_command f s c)
  unfolding status_is
  command-Settles f s (returned zero e, w) = refl
  command-Settles f s (returned (suc n) e, w) = refl
  command-Settles f s (raised e, w) = tt

  caught-Settles :
      (s : RollbackStep) (r : Result String (Bool × RollbackStep) × World)
      → Settles r
      → Settles (caught s r)
  caught-Settles s (ok (true, t), w) h = h
  caught-Settles s (ok (false, t), w) h = h
  caught-Settles s (err e, w) h = refl

  rmtree-Settles : (s : RollbackStep) (r : Option String × World) → Settles (after_rmtree s r)
  unfolding status_is
  rmtree-Settles s (none, w) = refl
  rmtree-Settles s (some e, w) = tt

  snapshot-Settles :
      (f : Option FileSnapshot) (s : RollbackStep) → SettlesAll (rollback_file_snapshot sys f s)
  unfolding rollback_file_snapshot status_is
  snapshot-Settles none s w = refl
  snapshot-Settles (some f) s w = then_done (put_back sys f f.content) (ended completed s) refl w

  delete-Settles :
      (f : Option FileSnapshot) (s : RollbackStep) → SettlesAll (rollback_file_delete sys f s)
  unfolding rollback_file_delete status_is
  delete-Settles none s w = refl
  delete-Settles (some f) s w = recreated f.content
    where
      recreated : (c : Option String) → Settles (recreate sys f c s w)
      recreated none = refl
      recreated (some c) = then_done (write_text sys f.path c) (ended completed s) refl w

  reverse-Settles :
      (c : Option String) (s : RollbackStep) → SettlesAll (rollback_command_reverse sys c s)
  unfolding rollback_command_reverse status_is
  reverse-Settles none s w = refl
  reverse-Settles (some c) s w = elim (Bool-cases (str_eq c "")) [
    | inl e ↦ rw e refl
    | inr e ↦ rw e (command-Settles sys.command_failed s (sys.shell c w))
  ]

  cleanup-Settles : (s : RollbackStep) → SettlesAll (rollback_directory_cleanup sys s)
  unfolding rollback_directory_cleanup status_is
  cleanup-Settles s w = elim (Bool-cases (sys.directory_exists s.target w)) [
    | inl e ↦ rw e (rmtree-Settles s (sys.rmtree s.target w))
    | inr e ↦ rw e refl
  ]

  handle-Settles : (t : RollbackType) (s : RollbackStep) → SettlesAll (handle sys t s)
  unfolding handle rollback_git_revert rollback_environment rollback_deployment status_is
  handle-Settles file_snapshot s w = snapshot-Settles s.snapshot s w
  handle-Settles file_delete s w = delete-Settles s.snapshot s w
  handle-Settles command_reverse s w = reverse-Settles s.reverse_command s w
  handle-Settles deployment_rollback s w = refl
  handle-Settles directory_cleanup s w = cleanup-Settles s w
  handle-Settles git_revert s w =
      caught-Settles s _ (command-Settles sys.git_failed s (sys.git_checkout s.target w))
  handle-Settles environment_restore s w =
      then_done (env_changes sys (get_field "env_changes" s.metadata)) (ended completed s) refl w
  handle-Settles database_rollback s w = refl

  -- What a step is when its turn is over: failed where it did not succeed, else completed or skipped.
  abbrev Turned : (Bool × RollbackStep) × World → Type 0
  Turned ((true, s), w) = is_done s ≡ true
  Turned ((false, s), w) = s.status ≡ failed

  settled-Turned :
      (s : RollbackStep) (r : Result String (Bool × RollbackStep) × World)
      → Settles r
      → Turned (settled s r)
  settled-Turned s (ok (true, t), w) h = h
  settled-Turned s (ok (false, t), w) h = h
  settled-Turned s (err e, w) h = refl

  execute_step-Turned : (now : ℕ) (s : RollbackStep) (w : World) → Turned (execute_step sys now s w)
  unfolding execute_step
  execute_step-Turned now s w =
      let t : RollbackStep = record s { status = in_progress; executed_at = some now } in
      settled-Turned t (handle sys t.rollback_type t w) (handle-Settles t.rollback_type t w)

  turn_settles :
      (clock : RollbackStep → ℕ) (stop : Bool) (s : RollbackStep) (w : World)
      → (is_done (turn sys clock stop s w).step ≡ true)
        ⊎ ((turn sys clock stop s w).step.status ≡ failed)
  unfolding turn
  turn_settles clock stop s w = elim (Bool-cases (is_done s)) [
    | inl e ↦ rw e (inl e)
    | inr e ↦ rw e (turned (execute_step sys (clock s) s w) (execute_step-Turned (clock s) s w))
  ]
    where
      turned :
          (r : (Bool × RollbackStep) × World)
          → Turned r
          → (is_done (turn_of stop r).step ≡ true) ⊎ ((turn_of stop r).step.status ≡ failed)
      turned ((true, t), v) h = inl h
      turned ((false, t), v) h = inr h

  having-nonempty :
      (x : RollbackStatus) (ss : List RollbackStep) (s : RollbackStep)
      → status_is s.status x ≡ true
      → 0 < length (having x (s ∷ ss))
  having-nonempty x ss s h = rw h (omega arith)

  failed_counted : (s : RollbackStep) → s.status ≡ failed → status_is s.status failed ≡ true
  unfolding status_is
  failed_counted s h = rw h refl

  turn_halted :
      (clock : RollbackStep → ℕ) (stop : Bool) (s : RollbackStep) (w : World)
      → (turn sys clock stop s w).halted ≡ true
      → (turn sys clock stop s w).step.status ≡ failed
  unfolding turn
  turn_halted clock stop s w h = elim (Bool-cases (is_done s)) [
    | inl e ↦ absurd (ground (arith, e))
    | inr e ↦
        rw e
          (turned (execute_step sys (clock s) s w) (execute_step-Turned (clock s) s w) (rw e at h))
  ]
    where
      turned :
          (r : (Bool × RollbackStep) × World)
          → Turned r
          → (turn_of stop r).halted ≡ true
          → (turn_of stop r).step.status ≡ failed
      turned ((true, t), v) h q = cc
      turned ((false, t), v) h q = h

  -- Where no step is failed after the loop, every step is done.
  run_steps_done :
      (clock : RollbackStep → ℕ) (stop : Bool) (ss : List RollbackStep) (w : World)
      → length (having failed (run_steps sys clock stop ss w).steps) ≡ 0
      → All (λ s. is_done s ≡ true) (run_steps sys clock stop ss w).steps
  unfolding run_steps
  run_steps_done clock stop [] w h = tt
  run_steps_done clock stop (s ∷ ss) w h =
      let t = turn sys clock stop s w in
      elim (Bool-cases t.halted) [
        | inl e ↦ absurd (
            omega (
              arith,
              having-nonempty failed ss t.step
                  (failed_counted t.step (turn_halted clock stop s w e)),
              rw e at h,
            ))
        | inr e ↦ elim (turn_settles clock stop s w) [
          | inr f ↦ absurd (
              omega (
                arith,
                having-nonempty failed (run_steps sys clock stop ss t.after).steps t.step
                    (failed_counted t.step f),
                rw e at h,
              ))
          | inl d ↦ rw e (d, run_steps_done clock stop ss t.after (ground (arith, h, e, d)))
        ]
      ]

  -- The steps that are done are neither failed nor pending.
  none_left :
      (ss : List RollbackStep)
      → All (λ s. is_done s ≡ true) ss
      → (length (having failed ss) ≡ 0) × (length (having pending ss) ≡ 0)
  unfolding status_is
  none_left [] h = (refl, refl)
  none_left (s ∷ ss) (h, hs) = ground (arith, none_left ss hs)

  verdict_completed :
      (n m : ℕ) (old : Option String) → ((verdict sys n m old).0 ≡ completed) ↔ ((n ≡ 0) × (m ≡ 0))
  verdict_completed zero zero old = (λ h. (refl, refl), λ h. refl)
  verdict_completed zero (suc m) old = (λ h. cc, λ h. absurd (omega (arith, h.1)))
  verdict_completed (suc n) m old = (λ h. cc, λ h. absurd (omega (arith, h.0)))

  verdict_either :
      (n m : ℕ) (old : Option String)
      → ((verdict sys n m old).0 ≡ completed) ⊎ ((verdict sys n m old).0 ≡ failed)
  verdict_either zero zero old = inl refl
  verdict_either zero (suc m) old = inr refl
  verdict_either (suc n) m old = inr refl

  -- `execute_rollback` ends with the procedure completed exactly if every step is completed or skipped,
  -- whatever the steps, the files and the system; else the procedure has failed.
  pub execute_status :
      (clock : RollbackStep → ℕ) (at : ℕ) (stop : Bool) (p : RollbackProcedure) (w : World)
      → (((execute sys clock at stop p w).0.status ≡ completed)
          ↔ All (λ s. is_done s ≡ true) (execute sys clock at stop p w).0.steps)
        × (((execute sys clock at stop p w).0.status ≡ completed)
            ⊎ ((execute sys clock at stop p w).0.status ≡ failed))
  unfolding execute
  execute_status clock at stop p w =
      let ss = (run_steps sys clock stop p.steps w).steps in
      let exact =
        verdict_completed (length (having failed ss)) (length (having pending ss)) p.error in
      (
        (λ h. run_steps_done clock stop p.steps w (exact.0 h).0, λ h. exact.1 (none_left ss h)),
        verdict_either (length (having failed ss)) (length (having pending ss)) p.error,
      )

  run_steps_again :
      (clock : RollbackStep → ℕ) (stop : Bool) (ss : List RollbackStep) (w : World)
      → All (λ s. is_done s ≡ true) ss
      → run_steps sys clock stop ss w ≡ record { steps = ss; succeeded = 0; world = w }
  unfolding run_steps turn
  run_steps_again clock stop [] w h = refl
  run_steps_again clock stop (s ∷ ss) w (h, hs) = rw (h, run_steps_again clock stop ss w hs) refl

  execute_done :
      (clock : RollbackStep → ℕ) (at : ℕ) (stop : Bool) (q : RollbackProcedure) (v : World)
      → q.status ≡ completed
      → All (λ s. is_done s ≡ true) q.steps
      → execute sys clock at stop q v ≡ (record q { completed_at = some at }, v)
  unfolding execute
  execute_done clock at stop q v h d =
      rw
        (
          run_steps_again clock stop q.steps v d,
          (none_left q.steps d).0,
          (none_left q.steps d).1,
          h,
        )
        (ap (λ n. (record q { completed_at = some at; status = completed; completed_steps = n }, v))
          (omega arith))

  -- A procedure that is completed can be executed again: no step runs, and nothing changes but the time
  -- of its end.
  pub execute_again :
      (clock : RollbackStep → ℕ) (at later : ℕ) (stop stop' : Bool) (p : RollbackProcedure)
      (w v : World)
      → (execute sys clock at stop p w).0.status ≡ completed
      → execute sys clock later stop' (execute sys clock at stop p w).0 v
        ≡ (record (execute sys clock at stop p w).0 { completed_at = some later }, v)
  execute_again clock at later stop stop' p w v h =
      execute_done clock later stop' (execute sys clock at stop p w).0 v h
        ((execute_status clock at stop p w).0.0 h)
