-- ===== src/Lifecycle/Run.antt =====
-- About `run` of rann_agent/core/lifecycle.py, by how the body of its `with` statement ends.
use rann_agent.Prelude.{String, ◌≡◌, refl, true, false, some, if◌then◌else◌, Bool-cases, inl, inr}
use rann_agent.Exec.{Result, ok, err}
use rann_agent.Json.{IsoFormat}
use rann_agent.State.Values.{AgentState, queued, completed, failed, in_states, valid_transitions}
use rann_agent.State.Machine.{can_transition_to, transition}
use rann_agent.State.Transition.{state-persist}
use rann_agent.Budget.Tracker.{Tracker}
use rann_agent.Lifecycle.Defs.{Lifecycle, Exception, state_transition, Method, emit_created}
use rann_agent.Lifecycle.Methods.{RunTimes, handle, run_open, run_close, run_block, run_failed, run}

module _ (iso : IsoFormat) (text : Exception → String) where
  abbrev pub error_at : Lifecycle → AgentState → Exception
  error_at l s = state_transition (record { current = l.machine.state; target = s })

  -- The exception `e` marks the run as failed and goes on; where the state has no step to `FAILED`,
  -- the error of that transition takes its place.
  run_failed_valid :
      (t : RunTimes iso text) (e : Exception) (l : Lifecycle)
      → can_transition_to l.machine failed ≡ true
      → ((run_failed iso text t e l).0 ≡ err e)
        × ((run_failed iso text t e l).1.machine.state ≡ failed)
  unfolding run_failed transition emit_created
  run_failed_valid t e l h = rw h (refl, state-persist iso _ _)

  run_failed_invalid :
      (t : RunTimes iso text) (e : Exception) (l : Lifecycle)
      → can_transition_to l.machine failed ≡ false
      → run_failed iso text t e l ≡ (err (error_at l failed), l)
  unfolding run_failed transition
  run_failed_invalid t e l h = rw h

  run_close_valid :
      (t : RunTimes iso text) (l : Lifecycle) (k : Tracker)
      → l.engine.tracker ≡ some k
      → can_transition_to l.machine completed ≡ true
      → ((run_close iso text t l).0 ≡ ok tt)
        × ((run_close iso text t l).1.machine.state ≡ completed)
  unfolding run_close transition emit_created
  run_close_valid t l k g h = rw (h, g) (refl, state-persist iso _ _)

  run_close_invalid :
      (t : RunTimes iso text) (l : Lifecycle)
      → can_transition_to l.machine completed ≡ false
      → run_close iso text t l ≡ (err (error_at l completed), l)
  unfolding run_close transition
  run_close_invalid t l h = rw h

  run_open_queued :
      (t : RunTimes iso text) (l : Lifecycle)
      → l.machine.state ≡ queued
      → (run_open iso text t l).0 ≡ ok tt
  unfolding run_open transition emit_created can_transition_to in_states valid_transitions
  run_open_queued t l h = rw h refl

  -- What `run` comes to, from what its body comes to.
  run_raised :
      (t : RunTimes iso text) (inner : Method (Unit {0})) (l l₂ : Lifecycle) (e : Exception)
      → l.machine.state ≡ queued
      → inner (run_open iso text t l).1 ≡ (err e, l₂)
      → run iso text t inner l ≡ run_failed iso text t e l₂
  unfolding run run_block
  run_raised t inner l l₂ e q h = rw (run_open_queued t l q, h)

  run_returned :
      (t : RunTimes iso text) (inner : Method (Unit {0})) (l l₂ : Lifecycle)
      → l.machine.state ≡ queued
      → inner (run_open iso text t l).1 ≡ (ok tt, l₂)
      → run iso text t inner l ≡ handle iso text (run_failed iso text t) (run_close iso text t l₂)
  unfolding run run_block
  run_returned t inner l l₂ q h = rw (run_open_queued t l q, h)

  -- The end of a run whose `try` block raised `e` in `l₂`.
  run_failed_cases :
      (t : RunTimes iso text) (e : Exception) (l₂ : Lifecycle)
      → ((run_failed iso text t e l₂).0
          ≡ (if can_transition_to l₂.machine failed then err e else err (error_at l₂ failed)))
        × ((run_failed iso text t e l₂).1.machine.state
            ≡ (if can_transition_to l₂.machine failed then failed else l₂.machine.state))
  run_failed_cases t e l₂ = elim (Bool-cases (can_transition_to l₂.machine failed)) [
    | inl f ↦ rw f (run_failed_valid t e l₂ f)
    | inr f ↦ rw (f, run_failed_invalid t e l₂ f) (refl, refl)
  ]

  module _ (t : RunTimes iso text) (inner : Method (Unit {0})) (l l₂ : Lifecycle)
      (q : l.machine.state ≡ queued) where
    -- A run whose body raises is failed and passes the exception on, if the state that the body
    -- leaves has a step to `FAILED`. If it has none, as in a terminal state, the exception of the body
    -- is lost: the run raises the transition error instead, and the state stays.
    pub run_body_raises :
        (e : Exception)
        → inner (run_open iso text t l).1 ≡ (err e, l₂)
        → ((run iso text t inner l).0
            ≡ (if can_transition_to l₂.machine failed then err e else err (error_at l₂ failed)))
          × ((run iso text t inner l).1.machine.state
              ≡ (if can_transition_to l₂.machine failed then failed else l₂.machine.state))
    run_body_raises e h = rw (run_raised t inner l l₂ e q h) (run_failed_cases t e l₂)

    -- A run whose body returns succeeds, and is then completed, exactly if the state that the body
    -- leaves has a step to `COMPLETED`. If it has none, the run raises a transition error although
    -- its body returned, and is failed where a step to `FAILED` is there, else left in its state.
    pub run_body_returns :
        (k : Tracker)
        → inner (run_open iso text t l).1 ≡ (ok tt, l₂)
        → l₂.engine.tracker ≡ some k
        → ((run iso text t inner l).0 ≡ (
            if can_transition_to l₂.machine completed
            then ok tt
            else if can_transition_to l₂.machine failed
            then err (error_at l₂ completed)
            else err (error_at l₂ failed)))
          × ((run iso text t inner l).1.machine.state ≡ (
              if can_transition_to l₂.machine completed
              then completed
              else if can_transition_to l₂.machine failed
              then failed
              else l₂.machine.state))
    run_body_returns k h g = elim (Bool-cases (can_transition_to l₂.machine completed)) [
      | inl c ↦
          rw (c, run_returned t inner l l₂ q h)
            (handled (run_close iso text t l₂) (run_close_valid t l₂ k g c))
      | inr c ↦
          rw (c, run_returned t inner l l₂ q h, run_close_invalid t l₂ c)
            (run_failed_cases t (error_at l₂ completed) l₂)
    ]
      where
        handled :
            (x : Result Exception (Unit {0}) × Lifecycle)
            → (x.0 ≡ ok tt) × (x.1.machine.state ≡ completed)
            → ((handle iso text (run_failed iso text t) x).0 ≡ ok tt)
              × ((handle iso text (run_failed iso text t) x).1.machine.state ≡ completed)
        handled (ok u, y) (a, b) = (a, b)
        handled (err e, y) (a, b) = cc
