-- ===== src/State/Reach.antt =====
-- About the states that the machine of rann_agent/core/state.py can come to.
use rann_agent.Prelude.{
  ℕ, String, ◌≡◌, refl, ◌≢◌, ◌∙◌, ◌⊎◌, Option, none, true, false, List, [], ◌∷◌, arith, inl, inr,
}
use rann_agent.Json.{Json, end, IsoFormat}
use rann_agent.State.Record.{StateTransitionRecord}
use rann_agent.State.Values.{
  AgentState, queued, analyzing, cancelled, failed, terminal_states, valid_transitions, in_states,
}
use rann_agent.State.Machine.{Machine, init, is_terminal, can_transition_to}
use rann_agent.State.Transition.{
  Attempt, Linked, attempt, attempts, attempts-Linked, transition_valid,
}

cancelled_unlisted : (s : AgentState) → in_states cancelled (valid_transitions s) ≡ false
unfolding in_states valid_transitions
cancelled_unlisted queued = refl
cancelled_unlisted _ = refl

Linked-cancelled :
    (s t : AgentState) (rs : List StateTransitionRecord)
    → Linked s rs t
    → t ≡ cancelled
    → s ≡ cancelled
Linked-cancelled s t [] h e = h ∙ e
Linked-cancelled s t (r ∷ rs) (f, v, h) e = absurd (unlisted (Linked-cancelled r.to_state t rs h e))
  where
    unlisted : r.to_state ≡ cancelled → ⊥
    unlisted c = cc (cancelled_unlisted s)

-- A state from which one more step ends the run.
way_out :
    (s : AgentState)
    → (in_states s terminal_states ≡ true)
      ⊎ (in_states failed (valid_transitions s) ≡ true)
      ⊎ (s ≡ queued)
unfolding in_states valid_transitions terminal_states
way_out queued = inr (inr refl)
way_out _ = ground arith

abbrev pub call : AgentState → Attempt
call t = record {
  moment = record { now = 0; since = 0; written = false };
  target = t;
  reason = none;
  metadata = end;
}

module _ (iso : IsoFormat) where
  -- A machine that starts in another state than `CANCELLED` never comes to be cancelled, whatever
  -- transitions are attempted on it: no step of the table leads there.
  pub attempts-ne-cancelled :
      (run_id : String) (s : AgentState) (now : ℕ) (file : Option Json) (calls : List Attempt)
      → s ≢ cancelled
      → (attempts iso calls (init run_id s now file)).state ≢ cancelled
  unfolding init
  attempts-ne-cancelled run_id s now file calls ne e =
      ne (Linked-cancelled s _ _ (attempts-Linked iso s calls (init run_id s now file) refl) e)

  fails :
      (m : Machine)
      → in_states failed (valid_transitions m.state) ≡ true
      → is_terminal (attempts iso (call failed ∷ []) m) ≡ true
  unfolding attempts is_terminal can_transition_to
  fails m one = rw ((transition_valid iso (call failed) m one).0) refl

  starts : (m : Machine) → m.state ≡ queued → (attempt iso (call analyzing) m).state ≡ analyzing
  unfolding can_transition_to in_states valid_transitions
  starts m e = (transition_valid iso (call analyzing) m (rw e refl)).0

  -- From every machine, in whatever state, some list of transitions ends in a terminal state.
  pub attempts_can_end :
      (m : Machine) → (calls : List Attempt) × (is_terminal (attempts iso calls m) ≡ true)
  unfolding attempts is_terminal in_states valid_transitions
  attempts_can_end m = elim (way_out m.state) [
    | inl done ↦ ([], done)
    | inr (inl one) ↦ (call failed ∷ [], fails m one)
    | inr (inr start) ↦ (
      call analyzing ∷ call failed ∷ [],
      fails (attempt iso (call analyzing) m) (rw (starts m start) refl),
    )
  ]
