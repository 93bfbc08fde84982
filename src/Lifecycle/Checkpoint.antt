-- ===== src/Lifecycle/Checkpoint.antt =====
-- About `checkpoint` of rann_agent/core/lifecycle.py, by the state that it is called in.
use rann_agent.Prelude.{ℕ, String, ◌≡◌, refl, ◌≢◌, true, some, List, [], ◌∷◌, ◌++◌}
use rann_agent.Exec.{Result, ok, err}
use rann_agent.Json.{IsoFormat, Fields, end}
use rann_agent.State.Values.{AgentState, queued, executing, verifying, recovering}
use rann_agent.State.Record.{StateTransitionRecord}
use rann_agent.State.Machine.{Moment, can_transition_to, transition, record_of}
use rann_agent.State.Transition.{Linked, state-persist, history-persist}
use rann_agent.Budget.Tracker.{Readings}
use rann_agent.Lifecycle.Defs.{Lifecycle, Exception, state_transition, emit_created, second_last}
use rann_agent.Lifecycle.Methods.{checkpoint_open, checkpoint, go_back}
use rann_agent.Exec.{continue}

-- The last record of a chain but for the one appended to it leads into the chain's last state.
second_last-cons :
    (t : AgentState) (p r : StateTransitionRecord) (rs : List StateTransitionRecord)
    → Linked p.to_state rs t
    → (x : StateTransitionRecord) × (second_last (p ∷ (rs ++ r ∷ [])) ≡ some x) × (x.to_state ≡ t)
unfolding second_last
second_last-cons t p r [] h = (p, refl, h)
second_last-cons t p r (q ∷ []) (f, v, h) = (q, refl, h)
second_last-cons t p r (q ∷ a ∷ rs) (f, v, h) = second_last-cons t q r (a ∷ rs) h

second_last-snoc :
    (s t : AgentState) (rs : List StateTransitionRecord) (r : StateTransitionRecord)
    → Linked s rs t
    → s ≢ t
    → (x : StateTransitionRecord) × (second_last (rs ++ r ∷ []) ≡ some x) × (x.to_state ≡ t)
second_last-snoc s t [] r h ne = absurd (ne h)
second_last-snoc s t (p ∷ rs) r (f, v, h) ne = second_last-cons t p r rs h

abbrev pub error_to : AgentState → AgentState → Exception
error_to s t = state_transition (record { current = s; target = t })

-- What a checkpoint in state `s` comes to: the answer, and the state that it leaves.
abbrev pub answer : AgentState → Result Exception (Unit {0})
answer executing = ok tt
answer verifying = err (error_to recovering verifying)
answer s = err (error_to s recovering)

abbrev pub left_in : AgentState → AgentState
left_in executing = executing
left_in verifying = recovering
left_in s = s

module _ (iso : IsoFormat) (text : Exception → String) (w w' : Moment) (now : ℕ) (r r' : Readings)
    (payload : Fields) (reason : String) where
  open_valid :
      (l : Lifecycle)
      → can_transition_to l.machine recovering ≡ true
      → ((checkpoint_open iso text w now r r' payload reason l).0 ≡ ok tt)
        × ((checkpoint_open iso text w now r r' payload reason l).1.machine.state ≡ recovering)
        × ((checkpoint_open iso text w now r r' payload reason l).1.machine.history
            ≡ l.machine.history ++ record_of l.machine recovering (some reason) end w.now ∷ [])
  unfolding checkpoint_open transition emit_created
  open_valid l v = rw v (refl, state-persist iso _ _, history-persist iso _ _)

  -- What a checkpoint comes to that its first transition lets begin.
  begun :
      (l : Lifecycle)
      → can_transition_to l.machine recovering ≡ true
      → Linked queued l.machine.history l.machine.state
      → queued ≢ l.machine.state
      → (x : StateTransitionRecord) × (l₁ : Lifecycle) × (x.to_state ≡ l.machine.state)
        × (l₁.machine.state ≡ recovering)
        × (checkpoint iso text w w' now r r' payload reason l ≡ go_back iso text w' (some x) l₁)
  unfolding checkpoint
  begun l v k ne = go (checkpoint_open iso text w now r r' payload reason l) (open_valid l v)
    where
      go :
          (z : Result Exception (Unit {0}) × Lifecycle)
          → (z.0 ≡ ok tt)
            × (z.1.machine.state ≡ recovering)
            × (z.1.machine.history
                ≡ l.machine.history ++ record_of l.machine recovering (some reason) end w.now ∷ [])
          → (x : StateTransitionRecord) × (l₁ : Lifecycle) × (x.to_state ≡ l.machine.state)
            × (l₁.machine.state ≡ recovering)
            × (continue z.0 (λ _ l. go_back iso text w' (second_last l.machine.history) l) z.1
                ≡ go_back iso text w' (some x) l₁)
      go (z, l₁) (a, b, c) =
          let (x, last, ends) =
            second_last-snoc queued l.machine.state l.machine.history
              (record_of l.machine recovering (some reason) end w.now) k ne in
          (x, l₁, ends, b, rw (a, c, last) refl)
