-- ===== src/Lifecycle/Methods.antt =====
-- The methods of `AgentLifecycle`, in the order of rann_agent/core/lifecycle.py.
use rann_agent.Prelude.{
  ℕ, String, Bool, true, false, ◌&&◌, Option, none, some, List, [], ◌∷◌, ◌++◌, if◌then◌else◌,
  is_some, length,
}
use rann_agent.Exec.{Result, ok, err, pure, raise, modify, ◌>>=◌, ◌>>◌}
use rann_agent.Json.{Json, num, str, obj, Fields, end, field, opt_str, IsoFormat}
use rann_agent.State.Values.{
  AgentState, queued, analyzing, completed, failed, recovering, value, state_eq,
}
use rann_agent.State.Record.{StateTransitionRecord}
use rann_agent.State.Machine.{Moment, transition}
use rann_agent.Budget.Tracker.{
  Readings, LimitStatus, is_exhausted, get_limit_status, check_warnings,
}
use rann_agent.Budget.Engine.{
  with_tracker, start_run, record_model_call, record_tool_call, record_turn, get_status,
}
use rann_agent.Events.Types.{
  run_created, run_started, run_completed, state_changed, error_occurred, checkpoint_created,
  recovery_started, started, success, failure,
}
use rann_agent.Events.Emitter.{get_trace}
use rann_agent.Lifecycle.Defs.{
  Lifecycle, Exception, state_transition, state_machine, budget_exceeded, on_state_change,
  on_budget_warning, on_recovery, Method, on_machine, on_engine, emit_created, budget_dict,
  second_last,
}

-- `iso` is the format of times; `text` is `str(e)` for an exception.
module _ (iso : IsoFormat) (text : Exception → String) where
  -- The clock and the disk during one `run`: at the event and the transition that open it, at the
  -- start of the budget and its event, at the transition and the event that close it, and at those
  -- of a failure.
  pub record RunTimes : Type 0 where
    pub created : ℕ
    pub opening : Moment
    pub budget_start : ℕ
    pub started_at : ℕ
    pub closing : Moment
    pub completed_at : ℕ
    pub failing : Moment
    pub failed_at : ℕ

  abbrev pub to_state : Moment → AgentState → Option String → Method StateTransitionRecord
  to_state w s reason = on_machine state_transition (transition iso w s reason end)

  -- The `try` block of `run` up to its `yield`.
  unfoldable pub run_open : RunTimes → Method (Unit {0})
  run_open t = do
    modify (λ l.
        emit_created run_created started
          (field "goal" (str l.goal) (field "budget" (obj (budget_dict l.engine.budget)) end))
          t.created l)
    to_state t.opening analyzing (some "run_started")
    modify (λ l. record l { engine = start_run t.budget_start l.engine })
    modify (emit_created run_started success end t.started_at)

  -- The rest of the `try` block.
  unfoldable pub run_close : RunTimes → Method (Unit {0})
  run_close t = do
    to_state t.closing completed (some "run_completed")
    turns ← on_engine (with_tracker (λ k. k.turns))
    modify (emit_created run_completed success (field "turns" (num turns) end) t.completed_at)

  -- The `try` block; `inner` is the body of the `with` statement, which runs at the `yield`.
  unfoldable pub run_block : RunTimes → Method (Unit {0}) → Method (Unit {0})
  run_block t inner = do run_open t; inner; run_close t

  -- The `except` block of `run`, for the exception `e`.
  unfoldable pub run_failed : RunTimes → Exception → Method (Unit {0})
  run_failed t e = do
    to_state t.failing failed (some (text e))
    modify (emit_created error_occurred failure (field "error" (str (text e)) end) t.failed_at)
    raise e

  abbrev pub handle :
      {A : Type 0}
      → (Exception → Method A)
      → Result Exception A × Lifecycle
      → Result Exception A × Lifecycle
  handle h (ok a, l) = (ok a, l)
  handle h (err e, l) = h e l

  -- `async with lifecycle.run(): inner`
  unfoldable pub run : RunTimes → Method (Unit {0}) → Method (Unit {0})
  run t inner l = handle (run_failed t) (run_block t inner l)

  unfoldable pub set_state_change_callback : Lifecycle → Lifecycle
  set_state_change_callback l = record l { state_change_set = true }

  unfoldable pub set_budget_warning_callback : Lifecycle → Lifecycle
  set_budget_warning_callback l = record l { budget_warning_set = true }

  unfoldable pub set_recovery_callback : Lifecycle → Lifecycle
  set_recovery_callback l = record l { recovery_set = true }

  -- The text of `history[-2].to_state`, or `None`.
  unfoldable pub from_state_of : Option StateTransitionRecord → Json
  from_state_of none = opt_str none
  from_state_of (some r) = str (value r.to_state)

  -- The callback of `transition_to`, if it is set.
  abbrev notify : AgentState → Option String → Fields → Lifecycle → Lifecycle
  notify s reason metadata l =
      if l.state_change_set
      then record l { called = l.called ++ on_state_change s reason metadata ∷ [] }
      else l

  -- `transition_to`; the keys of `metadata` are the caller's.
  unfoldable pub transition_to :
      Moment → ℕ → AgentState → Option String → Fields → Method (Unit {0})
  transition_to w now s reason metadata = do
    on_machine state_machine (transition iso w s reason metadata)
    modify (λ l.
        emit_created state_changed started
          (field "from_state" (from_state_of (second_last l.machine.history))
            (field "to_state" (str (value s)) (field "reason" (opt_str reason) metadata)))
          now l)
    modify (notify s reason metadata)

  -- `check_budget`; the clock is read for the test and for the details.
  unfoldable pub check_budget : ℕ → Readings → Method (Unit {0})
  check_budget now r = do
    exhausted ← on_engine (with_tracker (is_exhausted now))
    status ← on_engine (with_tracker (get_limit_status r))
    if exhausted then raise (budget_exceeded status) else pure tt

  abbrev warn : List LimitStatus → Lifecycle → Lifecycle
  warn [] l = l
  warn (w ∷ ws) l =
      if l.budget_warning_set
      then record l { called = l.called ++ on_budget_warning (w ∷ ws) ∷ [] }
      else l

  unfoldable pub check_budget_warnings : Readings → Method (Unit {0})
  check_budget_warnings r = do
    warnings ← on_engine (with_tracker (check_warnings r))
    modify (warn warnings)

  unfoldable pub lifecycle_model_call : (input output cost : ℕ) → Readings → Method (Unit {0})
  lifecycle_model_call input output cost r = do
    on_engine (record_model_call input output cost)
    check_budget_warnings r

  unfoldable pub lifecycle_tool_call : Readings → Method (Unit {0})
  lifecycle_tool_call r = do on_engine record_tool_call; check_budget_warnings r

  unfoldable pub lifecycle_turn : Readings → Method (Unit {0})
  lifecycle_turn r = do on_engine record_turn; check_budget_warnings r

  -- The return of `checkpoint` to the state before it, where the history has two records.
  unfoldable pub go_back : Moment → Option StateTransitionRecord → Method (Unit {0})
  go_back w none = pure tt
  go_back w (some r) = do to_state w r.to_state (some "checkpoint_complete"); pure tt

  -- `checkpoint` up to the event that it emits: it goes to `RECOVERING` and keeps the data.
  unfoldable pub checkpoint_open :
      (w : Moment) (now : ℕ) (r r' : Readings) → Fields → String → Method (Unit {0})
  checkpoint_open w now r r' payload reason = do
    to_state w recovering (some reason)
    modify (λ l. record l {
      checkpoint_data = some (record {
        state = value l.machine.state;
        goal = l.goal;
        budget = get_status r r' now l.engine;
        events = get_trace iso l.events;
        payload = payload;
      });
    })
    modify (emit_created checkpoint_created success (field "reason" (str reason) end) now)

  -- `checkpoint`; `w` and `w'` are the moments of its two transitions.
  unfoldable pub checkpoint :
      (w w' : Moment) (now : ℕ) (r r' : Readings) → Fields → String → Method (Unit {0})
  checkpoint w w' now r r' payload reason = do
    checkpoint_open w now r r' payload reason
    λ l. go_back w' (second_last l.machine.history) l

  unfoldable pub can_resume_from_checkpoint : Lifecycle → Bool
  can_resume_from_checkpoint l = is_some l.checkpoint_data && state_eq l.machine.state queued

  -- A recovery strategy is the client's: it may change the run, succeed or not, or raise.
  pub record Strategy : Type 0 where
    pub name : String
    pub attempt : Exception → Lifecycle → Result Exception Bool × Lifecycle

  abbrev pub recovered : Strategy → ℕ → Lifecycle → Lifecycle
  recovered s now l =
      let l' = emit_created recovery_started success (field "strategy" (str s.name) end) now l in
      if l'.recovery_set then record l' { called = l'.called ++ on_recovery s.name ∷ [] } else l'

  -- Whether the recovery callback is set and raises; `raises` says when it does, by the name that it
  -- is called with.
  abbrev pub callback_raises : (String → Lifecycle → Bool) → Strategy → Lifecycle → Bool
  callback_raises raises s l = l.recovery_set && raises s.name l

  -- The loop of `attempt_recovery` after one strategy was awaited: `rest` goes on with the others. The
  -- callback stands in the same `try` block as the strategy.
  abbrev pub after_attempt :
      (String → Lifecycle → Bool)
      → Strategy
      → ℕ
      → (Lifecycle → Bool × Lifecycle)
      → Result Exception Bool × Lifecycle
      → Bool × Lifecycle
  after_attempt raises s now rest (ok true, l) =
      let l' = recovered s now l in if callback_raises raises s l' then rest l' else (true, l')
  after_attempt raises s now rest (ok false, l) = rest l
  after_attempt raises s now rest (err f, l) = rest l

  -- The loop of `attempt_recovery` over the strategies.
  unfoldable pub try_strategies :
      (String → Lifecycle → Bool) → ℕ → Exception → List Strategy → Lifecycle → Bool × Lifecycle
  try_strategies raises now e [] l = (false, l)
  try_strategies raises now e (s ∷ ss) l =
      after_attempt raises s now (λ l'. try_strategies raises now e ss l') (s.attempt e l)

  unfoldable pub attempt_recovery :
      (String → Lifecycle → Bool) → ℕ → Exception → List Strategy → Lifecycle → Bool × Lifecycle
  attempt_recovery raises now e strategies l = try_strategies raises now e strategies (
      emit_created recovery_started started
        (field "error" (str (text e)) (field "strategy_count" (num (length strategies)) end)) now l)
