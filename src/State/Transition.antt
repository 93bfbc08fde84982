-- ===== src/State/Transition.antt =====
-- About `AgentStateMachine.transition` of rann_agent/core/state.py.
use rann_agent.Prelude.{
  String, ◌≡◌, refl, sym, ◌∙◌, ◌↔◌, Bool, true, false, Option, List, [], ◌∷◌, ◌++◌, arith, inl, inr,
  Bool-cases,
}
use rann_agent.Json.{Fields, IsoFormat}
use rann_agent.State.Values.{
  AgentState, queued, analyzing, failed, terminal_states, valid_transitions, in_states,
}
use rann_agent.State.Record.{StateTransitionRecord}
use rann_agent.State.Machine.{
  Machine, Moment, is_terminal, can_transition_to, record_of, persist, transition,
}

-- The entries lead from `s` to `t`, each by a step that the table of transitions has.
abbrev pub Linked : AgentState → List StateTransitionRecord → AgentState → Type 0
Linked s [] t = s ≡ t
Linked s (r ∷ rs) t =
    (r.from_state ≡ s)
    × (in_states r.to_state (valid_transitions s) ≡ true)
    × Linked r.to_state rs t

Linked-snoc :
    (s t : AgentState) (rs : List StateTransitionRecord) (r : StateTransitionRecord)
    → Linked s rs t
    → r.from_state ≡ t
    → in_states r.to_state (valid_transitions t) ≡ true
    → Linked s (rs ++ r ∷ []) r.to_state
Linked-snoc s t [] r h e v = (e ∙ sym h, rw h v, refl)
Linked-snoc s t (q ∷ rs) r (f, w, h) e v = (f, w, Linked-snoc q.to_state t rs r h e v)

no_exit :
    (s : AgentState)
    → in_states s terminal_states ≡ true
    → (t : AgentState) → in_states t (valid_transitions s) ≡ false
unfolding in_states terminal_states valid_transitions
no_exit queued h t = cc
no_exit _ h t = ground arith

some_exit :
    (s : AgentState)
    → ((t : AgentState) → in_states t (valid_transitions s) ≡ false)
    → in_states s terminal_states ≡ true
unfolding in_states terminal_states valid_transitions
some_exit queued h = cc (h analyzing)
some_exit _ h = ground (arith, h failed)

-- One call of `transition`, as a client makes it.
pub record Attempt : Type 0 where
  pub moment : Moment
  pub target : AgentState
  pub reason : Option String
  pub metadata : Fields

module _ (iso : IsoFormat) where
  pub state-persist : (b : Bool) (m : Machine) → (persist iso b m).state ≡ m.state
  unfolding persist
  state-persist true m = refl
  state-persist false m = refl

  pub history-persist : (b : Bool) (m : Machine) → (persist iso b m).history ≡ m.history
  unfolding persist
  history-persist true m = refl
  history-persist false m = refl

  unfoldable pub attempt : Attempt → Machine → Machine
  attempt a m = (transition iso a.moment a.target a.reason a.metadata m).1

  -- A client that goes on after an exception.
  unfoldable pub attempts : List Attempt → Machine → Machine
  unfolding attempt
  attempts [] m = m
  attempts (a ∷ calls) m = attempts calls (attempt a m)

  pub transition_valid :
      (a : Attempt) (m : Machine)
      → can_transition_to m a.target ≡ true
      → ((attempt a m).state ≡ a.target)
        × ((attempt a m).history
            ≡ m.history ++ record_of m a.target a.reason a.metadata a.moment.now ∷ [])
  unfolding attempt transition
  transition_valid a m h = rw (h, attempt, transition) (state-persist _ _, history-persist _ _)

  transition_invalid :
      (a : Attempt) (m : Machine) → can_transition_to m a.target ≡ false → attempt a m ≡ m
  unfolding attempt transition
  transition_invalid a m h = rw (h, attempt, transition)

  attempt-Linked :
      (s : AgentState) (a : Attempt) (m : Machine)
      → Linked s m.history m.state
      → Linked s (attempt a m).history (attempt a m).state
  unfolding can_transition_to
  attempt-Linked s a m h = elim (Bool-cases (can_transition_to m a.target)) [
    | inl v ↦
        let (st, hi) = transition_valid a m v in
        rw (st, hi)
          (Linked-snoc s m.state m.history (record_of m a.target a.reason a.metadata a.moment.now) h
            refl v)
    | inr v ↦ rw (transition_invalid a m v) h
  ]

  -- Whatever transitions are attempted on a machine, failing ones included, its history stays a
  -- chain of table steps that leads from the state where the history began to the present state.
  pub attempts-Linked :
      (s : AgentState) (calls : List Attempt) (m : Machine)
      → Linked s m.history m.state
      → Linked s (attempts calls m).history (attempts calls m).state
  unfolding attempts
  attempts-Linked s [] m h = h
  attempts-Linked s (a ∷ calls) m h = attempts-Linked s calls (attempt a m) (attempt-Linked s a m h)

  stuck :
      (calls : List Attempt) (m : Machine)
      → ((t : AgentState) → can_transition_to m t ≡ false)
      → attempts calls m ≡ m
  unfolding attempts
  stuck [] m h = refl
  stuck (a ∷ calls) m h = rw (transition_invalid a m (h a.target)) (stuck calls m h)

  -- A machine is terminal exactly when no target can be transitioned to; whatever is then attempted
  -- leaves the machine as it is.
  pub is_terminal_exact :
      (m : Machine)
      → (is_terminal m ≡ true) ↔ (
          ((t : AgentState) → can_transition_to m t ≡ false)
          × ((calls : List Attempt) → attempts calls m ≡ m))
  unfolding is_terminal can_transition_to
  is_terminal_exact m = (λ h. (no_exit m.state h, stays m h), λ (h, _). some_exit m.state h)
    where
      stays : (m : Machine) → is_terminal m ≡ true → (calls : List Attempt) → attempts calls m ≡ m
      stays m h calls = stuck calls m (no_exit m.state h)
