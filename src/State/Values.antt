-- ===== src/State/Values.antt =====
-- rann_agent/core/state.py, the states of a run: the enumeration `AgentState`, the terminal states
-- and the table `VALID_TRANSITIONS`.
use rann_agent.Prelude.{
  ℕ, String, ◌≡◌, refl, Bool, Option, none, some, List, [], ◌∷◌, str_eq, ◌==◌, if◌then◌else◌, anyb,
}

pub data AgentState : Type 0 where
  queued analyzing context_ready planning waiting_policy executing verifying recovering
        acceptance_check learning completed failed cancelled timed_out blocked rolled_back :
      AgentState

-- The text of each member, `state.value`.
unfoldable pub value : AgentState → String
value queued = "queued"
value analyzing = "analyzing"
value context_ready = "context_ready"
value planning = "planning"
value waiting_policy = "waiting_policy"
value executing = "executing"
value verifying = "verifying"
value recovering = "recovering"
value acceptance_check = "acceptance_check"
value learning = "learning"
value completed = "completed"
value failed = "failed"
value cancelled = "cancelled"
value timed_out = "timed_out"
value blocked = "blocked"
value rolled_back = "rolled_back"

-- `AgentState(text)`; `none` is the `ValueError`.
unfoldable pub from_value : String → Option AgentState
from_value t =
    if str_eq t "queued"
    then some queued
    else if str_eq t "analyzing"
    then some analyzing
    else if str_eq t "context_ready"
    then some context_ready
    else if str_eq t "planning"
    then some planning
    else if str_eq t "waiting_policy"
    then some waiting_policy
    else if str_eq t "executing"
    then some executing
    else if str_eq t "verifying"
    then some verifying
    else if str_eq t "recovering"
    then some recovering
    else if str_eq t "acceptance_check"
    then some acceptance_check
    else if str_eq t "learning"
    then some learning
    else if str_eq t "completed"
    then some completed
    else if str_eq t "failed"
    then some failed
    else if str_eq t "cancelled"
    then some cancelled
    else if str_eq t "timed_out"
    then some timed_out
    else if str_eq t "blocked"
    then some blocked
    else if str_eq t "rolled_back"
    then some rolled_back
    else none

pub from_value-value : (s : AgentState) → from_value (value s) ≡ some s
unfolding from_value value
from_value-value queued = refl
from_value-value _ = refl

-- The place of a member in its enumeration, by which members are compared.
unfoldable pub index : AgentState → ℕ
index queued = 0
index analyzing = 1
index context_ready = 2
index planning = 3
index waiting_policy = 4
index executing = 5
index verifying = 6
index recovering = 7
index acceptance_check = 8
index learning = 9
index completed = 10
index failed = 11
index cancelled = 12
index timed_out = 13
index blocked = 14
index rolled_back = 15

unfoldable pub state_eq : AgentState → AgentState → Bool
unfolding index
state_eq a b = index a == index b

-- TERMINAL_STATES
unfoldable pub terminal_states : List AgentState
terminal_states = completed ∷ failed ∷ cancelled ∷ timed_out ∷ blocked ∷ rolled_back ∷ []

-- VALID_TRANSITIONS
unfoldable pub valid_transitions : AgentState → List AgentState
valid_transitions queued = analyzing ∷ []
valid_transitions analyzing = context_ready ∷ blocked ∷ failed ∷ completed ∷ []
valid_transitions context_ready = planning ∷ blocked ∷ failed ∷ []
valid_transitions planning = waiting_policy ∷ executing ∷ failed ∷ []
valid_transitions waiting_policy = executing ∷ blocked ∷ failed ∷ []
valid_transitions executing = verifying ∷ recovering ∷ failed ∷ timed_out ∷ []
valid_transitions verifying = acceptance_check ∷ recovering ∷ executing ∷ failed ∷ []
valid_transitions recovering = executing ∷ analyzing ∷ failed ∷ rolled_back ∷ []
valid_transitions acceptance_check = completed ∷ learning ∷ executing ∷ failed ∷ []
valid_transitions learning = planning ∷ completed ∷ failed ∷ []
valid_transitions completed = []
valid_transitions failed = []
valid_transitions cancelled = []
valid_transitions timed_out = []
valid_transitions blocked = []
valid_transitions rolled_back = []

-- `s in states`, for a set of states
unfoldable pub in_states : AgentState → List AgentState → Bool
unfolding state_eq
in_states s states = anyb (state_eq s) states
