-- ===== src/Rollback/Restore.antt =====
-- About the files after `execute_rollback` of rann_agent/core/rollback_engine.py.
use rann_agent.Prelude.{
  eq_refl, ℕ, String, ◌≡◌, inl, inr, refl, ◌∙◌, Bool, false, Option, none, some, List, [], ◌∷◌,
  str_eq, eq_iff, eq_refl, if◌then◌else◌, arith, Option-cases,
}
use rann_agent.Exec.{ok}
use rann_agent.Dict.{lookup, has_key, insert, delete, lookup-insert, lookup-delete}
use rann_agent.Rollback.Types.{file_snapshot, pending, add_step, FileSnapshot, RollbackStep}
use rann_agent.Rollback.Record.{
  Engine, begin_procedure, record_file_modification, snapshot_file, snapshot_at, read_found,
}
use rann_agent.Rollback.World.{FileState, text, unreadable, World, System, write_text, unlink}
use rann_agent.Rollback.Execute.{
  status_is, execute_step, handle, rollback_file_snapshot, put_back, turn, run_steps,
  execute_rollback, execute,
}

-- Every write and every removal succeeds.
pub record Writable (sys : System) : Type 0 where
  pub writes : (path : String) (w : World) → sys.write_error path w ≡ none
  pub unlinks : (path : String) (w : World) → sys.unlink_error path w ≡ none

-- What a file is after its snapshot has been put back.
abbrev pub content_file : Option String → Option FileState
content_file none = none
content_file (some content) = some (text content)

-- The last of the snapshots that is of this path.
abbrev pub last_of : String → List FileSnapshot → Option FileSnapshot
last_of path [] = none
last_of path (s ∷ ss) = elim (last_of path ss) [
  | some t ↦ some t
  | none ↦ if str_eq s.path path then some s else none
]

abbrev pub file_after : Option FileState → Option FileSnapshot → Option FileState
file_after old none = old
file_after old (some s) = content_file s.content

-- The steps have been recorded for these snapshots, and have not run yet.
abbrev pub Recorded : List RollbackStep → List FileSnapshot → Type 0
Recorded [] [] = Unit
Recorded (t ∷ ts) (s ∷ ss) =
    (t.rollback_type ≡ file_snapshot)
    × (t.status ≡ pending)
    × (t.snapshot ≡ some s)
    × Recorded ts ss
Recorded _ _ = ⊥

module _ (sys : System) (writable : Writable sys) where
  put_back_ok :
      (s : FileSnapshot) (c : Option String) (w : World)
      → (v : World) × (put_back sys s c w ≡ (ok tt, v))
        × ((k : String)
            → lookup k v.files ≡ (if str_eq s.path k then content_file c else lookup k w.files))
  unfolding write_text unlink has_key
  put_back_ok s (some c) w = (
    record w { files = insert s.path (text c) w.files },
    rw (writable.writes s.path w) refl,
    λ k. lookup-insert s.path k (text c) w.files,
  )
  put_back_ok s none w = elim (Option-cases (lookup s.path w.files)) [
    | inl e ↦ (w, rw e refl, λ k. ground (arith, eq_iff s.path k, e))
    | inr (f, e) ↦ (
      record w { files = delete s.path w.files },
      rw (e, writable.unlinks s.path w) refl,
      λ k. lookup-delete s.path k w.files,
    )
  ]

  -- The turn of such a step puts the file back, and ends in success.
  put_back_lem :
      (clock : RollbackStep → ℕ) (stop : Bool) (t : RollbackStep) (s : FileSnapshot) (w : World)
      → t.rollback_type ≡ file_snapshot
      → t.status ≡ pending
      → t.snapshot ≡ some s
      → ((turn sys clock stop t w).halted ≡ false)
        × ((k : String)
            → lookup k (turn sys clock stop t w).after.files
              ≡ (if str_eq s.path k then content_file s.content else lookup k w.files))
  unfolding turn execute_step handle rollback_file_snapshot status_is
  put_back_lem clock stop t s w ty st sn =
      let (v, e, files) = put_back_ok s s.content w in rw (st, ty, sn, e) (refl, files)

  -- Where the steps have been recorded for snapshots and every write succeeds, each file has what its
  -- last snapshot says, and is gone where that has no content; a file without a snapshot is as it was.
  pub run_steps_files :
      (clock : RollbackStep → ℕ) (stop : Bool) (ts : List RollbackStep) (ss : List FileSnapshot)
      (w : World)
      → Recorded ts ss
      → (k : String)
      → lookup k (run_steps sys clock stop ts w).world.files
        ≡ file_after (lookup k w.files) (last_of k ss)
  unfolding run_steps
  run_steps_files clock stop [] [] w h k = refl
  run_steps_files clock stop (t ∷ ts) (s ∷ ss) w (ty, st, sn, h) k =
      let (go, files) = put_back_lem clock stop t s w ty st sn in
      rw go (
        run_steps_files clock stop ts ss (turn sys clock stop t w).after h k
        ∙ after_rest (last_of k ss) s k w (turn sys clock stop t w).after (files k))
    where
      after_rest :
          (r : Option FileSnapshot) (s : FileSnapshot) (k : String) (w v : World)
          → lookup k v.files
            ≡ (if str_eq s.path k then content_file s.content else lookup k w.files)
          → file_after (lookup k v.files) r
            ≡ file_after
                (lookup k w.files)
                (elim r [ some t ↦ some t | none ↦ if str_eq s.path k then some s else none ])
      after_rest (some t) s k w v e = refl
      after_rest none s k w v e = ground (arith, e)
  run_steps_files clock stop [] (s ∷ ss) w h k = absurd h
  run_steps_files clock stop (t ∷ ts) [] w h k = absurd h

module _ (sys : System) (rb : ℕ → String) where
  -- The engine after a procedure was begun and one change of the file was announced.
  abbrev pub one_edit : Engine → String → World → Engine
  one_edit e f w₀ = (record_file_modification sys rb f none 0 w₀ (begin_procedure "p" none 0 e)).1

  -- The engine after a procedure was begun and two changes of the file were announced, the file being as
  -- in `w₀` and as in `w₁`.
  abbrev pub two_edits : Engine → String → World → World → Engine
  two_edits e f w₀ w₁ = (record_file_modification sys rb f none 1 w₁ (one_edit e f w₀)).1

  last_of_two :
      (s₀ s₁ : FileSnapshot) (old : Option FileState)
      → file_after old (last_of s₁.path (s₀ ∷ s₁ ∷ [])) ≡ content_file s₁.content
  last_of_two s₀ s₁ old = ground (arith, eq_refl s₁.path)

  last_of_one :
      (s : FileSnapshot) (old : Option FileState)
      → file_after old (last_of s.path (s ∷ [])) ≡ content_file s.content
  last_of_one s old = rw (eq_refl s.path) refl

  content_found :
      (path : String) (now : ℕ) (w : World) (x : FileState)
      → lookup path w.files ≡ some x
      → content_file (snapshot_at sys rb path now w).content
        ≡ content_file (read_found sys rb (some x)).0
  content_found path now w x h = rw h refl

  -- Where a file was changed twice in one procedure, each change announced before it was made, the
  -- rollback leaves the text that it had between the two changes, whatever it had at first: the steps
  -- are undone in the order in which they were recorded.
  pub rollback_between :
      Writable sys
      → (e : Engine) (f : String) (w₀ w₁ w : World) (between : String)
      → lookup (sys.resolve f) w₁.files ≡ some (text between)
      → (clock : RollbackStep → ℕ) (at : ℕ) (stop : Bool)
      → lookup (sys.resolve f) (execute_rollback sys clock at stop (two_edits e f w₀ w₁) w).2.files
        ≡ some (text between)
  unfolding execute_rollback execute record_file_modification snapshot_file add_step begin_procedure
  rollback_between writable e f w₀ w₁ w between h clock at stop =
      run_steps_files sys writable clock stop
        ((record_file_modification sys rb f none 0 w₀ (begin_procedure "p" none 0 e)).0
          ∷ (record_file_modification sys rb f none 1 w₁ (one_edit e f w₀)).0
          ∷ [])
        (snapshot_at sys rb (sys.resolve f) 0 w₀ ∷ snapshot_at sys rb (sys.resolve f) 1 w₁ ∷ []) w
        (refl, refl, refl, (refl, refl, refl, tt)) (sys.resolve f)
      ∙ last_of_two (snapshot_at sys rb (sys.resolve f) 0 w₀)
          (snapshot_at sys rb (sys.resolve f) 1 w₁) (lookup (sys.resolve f) w.files)
      ∙ content_found (sys.resolve f) 1 w₁ (text between) h

  -- A file that is there but cannot be read as text is gone after the rollback of one change of it.
  pub rollback_unreadable :
      Writable sys
      → (e : Engine) (f : String) (w₀ w : World) → lookup (sys.resolve f) w₀.files ≡ some unreadable
      → (clock : RollbackStep → ℕ) (at : ℕ) (stop : Bool)
      → lookup (sys.resolve f) (execute_rollback sys clock at stop (one_edit e f w₀) w).2.files
        ≡ none
  unfolding execute_rollback execute record_file_modification snapshot_file add_step begin_procedure
  rollback_unreadable writable e f w₀ w h clock at stop =
      run_steps_files sys writable clock stop
        ((record_file_modification sys rb f none 0 w₀ (begin_procedure "p" none 0 e)).0 ∷ [])
        (snapshot_at sys rb (sys.resolve f) 0 w₀ ∷ []) w (refl, refl, refl, tt) (sys.resolve f)
      ∙ last_of_one (snapshot_at sys rb (sys.resolve f) 0 w₀) (lookup (sys.resolve f) w.files)
      ∙ content_found (sys.resolve f) 0 w₀ unreadable h
