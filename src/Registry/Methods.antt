-- ===== src/Registry/Methods.antt =====
-- The methods of `AgentRegistry` that take its lock, rann_agent/orchestration/agent_registry.py. Under the
-- lock they await nothing but a nested `deregister`, so that a call which gets the lock runs to its end;
-- one that finds it held waits, and a call that waits for a lock of its own waits for ever.
use rann_agent.Prelude.{
  zero, suc, ℕ, ◌+◌, String, Bool, true, false, not, ◌&&◌, ◌++◌, Option, none, some, List, [], ◌∷◌,
  str_eq, anyb, if◌then◌else◌,
}
use rann_agent.Dict.{Dict, lookup, has_key, insert, delete}
use rann_agent.Json.{Fields}
use rann_agent.Registry.Types.{AgentStatus, starting, busy, AgentCapability, AgentInfo, Registry}

-- How a call ends: it returns, it waits for the lock, or it nests deeper than the fuel.
pub data Call (A : Type 0) : Type 0 where
  returned : A → Call A
  waiting : Call A
  out_of_fuel : Call A

-- `async with self._lock`, around a body that does not ask for the lock.
abbrev pub with_lock : {A : Type 0} → (Registry → A × Registry) → Registry → Call A × Registry
with_lock f r = if r.locked then (waiting, r) else let (a, r') = f r in (returned a, r')

-- `if parent_id and parent_id in self._agents`: the parent, where it is known.
abbrev pub known_parent : Option String → Dict AgentInfo → Option String
known_parent none d = none
known_parent (some p) d = if not (str_eq p "") && has_key p d then some p else none

-- The change of one agent that is there.
unfoldable pub change : String → (AgentInfo → AgentInfo) → Dict AgentInfo → Dict AgentInfo
change k f [] = []
change k f ((j, a) ∷ d) =
    let rest = change k f d in if str_eq j k then (j, f a) ∷ d else (j, a) ∷ rest

abbrev pub add_child : String → AgentInfo → AgentInfo
add_child c a = record a { child_ids = a.child_ids ++ (c ∷ []) }

abbrev pub link : String → Option String → Dict AgentInfo → Dict AgentInfo
link agent_id none d = d
link agent_id (some p) d = change p (add_child agent_id) d

abbrev pub new_info :
    String → String → Option String → String → List AgentCapability → Fields → ℕ → AgentInfo
new_info agent_id name parent_id role capabilities metadata now = record {
  id = agent_id;
  name = name;
  status = starting;
  parent_id = parent_id;
  child_ids = [];
  role = role;
  capabilities = capabilities;
  created_at = now;
  last_heartbeat = now;
  current_task = none;
  tasks_completed = 0;
  tasks_failed = 0;
  token_usage = 0;
  metadata = metadata;
}

-- `register_with_id`, and `register` with the id that it draws.
unfoldable pub register_with_id :
    String
    → String
    → Option String
    → String
    → List AgentCapability
    → Fields
    → ℕ
    → Registry
    → Call AgentInfo × Registry
unfolding insert has_key change
register_with_id agent_id name parent_id role capabilities metadata now = with_lock (λ r.
    let info = new_info agent_id name parent_id role capabilities metadata now in
    let d = insert agent_id info r.agents in
    (info, record r { agents = link agent_id (known_parent parent_id d) d }))

-- `list.remove` of an element that is there
unfoldable pub remove_first : String → List String → List String
remove_first x [] = []
remove_first x (y ∷ ys) = let rest = remove_first x ys in if str_eq y x then ys else y ∷ rest

abbrev pub drop_child : String → AgentInfo → AgentInfo
drop_child c a =
    if anyb (λ x. str_eq x c) a.child_ids
    then record a { child_ids = remove_first c a.child_ids }
    else a

abbrev pub unlink : String → Option String → Dict AgentInfo → Dict AgentInfo
unlink agent_id none d = d
unlink agent_id (some p) d = change p (drop_child agent_id) d

abbrev pub children_of : Option AgentInfo → List String
children_of none = []
children_of (some a) = a.child_ids

-- The loop over the children; it stands still at the first call that does not return.
abbrev pub after_child :
    (Registry → Call (Unit {0}) × Registry) → Call Bool × Registry → Call (Unit {0}) × Registry
after_child rest (returned b, r) = rest r
after_child rest (waiting, r) = (waiting, r)
after_child rest (out_of_fuel, r) = (out_of_fuel, r)

unfoldable pub kill_children :
    (String → Registry → Call Bool × Registry) → List String → Registry → Call (Unit {0}) × Registry
kill_children rec [] r = (returned tt, r)
kill_children rec (c ∷ cs) r = after_child (kill_children rec cs) (rec c r)

abbrev pub finish : String → List String → Call (Unit {0}) × Registry → Call Bool × Registry
finish agent_id processes (returned u, r) = (
  returned true,
  record r { agents = delete agent_id r.agents; processes = processes; locked = false },
)
finish agent_id processes (waiting, r) = (waiting, r)
finish agent_id processes (out_of_fuel, r) = (out_of_fuel, r)

-- The rest of `deregister` for an agent that is there, with the lock held. `dies` tells whether a
-- subprocess can be terminated; the exception of one that cannot is dropped.
abbrev pub deregister_found :
    (String → Bool)
    → (String → Registry → Call Bool × Registry)
    → String
    → Option AgentInfo
    → Registry
    → Call Bool × Registry
deregister_found dies rec agent_id none r = (returned false, r)
deregister_found dies rec agent_id (some info) r =
    let d = unlink agent_id (known_parent info.parent_id r.agents) r.agents in
    finish agent_id (if dies agent_id then remove_first agent_id r.processes else r.processes)
      (kill_children rec (children_of (lookup agent_id d)) (record r { agents = d; locked = true }))

-- `deregister`, nested no deeper than the fuel
unfoldable pub deregister : (String → Bool) → ℕ → String → Registry → Call Bool × Registry
unfolding lookup has_key delete change remove_first kill_children
deregister dies zero agent_id r = (out_of_fuel, r)
deregister dies (suc n) agent_id r =
    if r.locked
    then (waiting, r)
    else deregister_found dies (deregister dies n) agent_id (lookup agent_id r.agents) r

-- The methods that change one agent, and answer whether it is there.
abbrev pub changing : String → (AgentInfo → AgentInfo) → Registry → Call Bool × Registry
changing agent_id f = with_lock (λ r.
    if has_key agent_id r.agents
    then (true, record r { agents = change agent_id f r.agents })
    else (false, r))

unfoldable pub update_status : String → AgentStatus → Registry → Call Bool × Registry
unfolding has_key change
update_status agent_id status = changing agent_id (λ a. record a { status = status })

-- `heartbeat`, at the time `now`
unfoldable pub heartbeat : String → ℕ → Registry → Call Bool × Registry
unfolding has_key change
heartbeat agent_id now = changing agent_id (λ a. record a { last_heartbeat = now })

-- A task that is not empty makes the agent busy.
abbrev pub status_for : Option String → AgentStatus → AgentStatus
status_for none old = old
status_for (some t) old = if str_eq t "" then old else busy

unfoldable pub set_task : String → Option String → Registry → Call Bool × Registry
unfolding has_key change
set_task agent_id task =
    changing agent_id (λ a. record a { current_task = task; status = status_for task a.status })

unfoldable pub increment_completed : String → Registry → Call Bool × Registry
unfolding has_key change
increment_completed agent_id =
    changing agent_id (λ a. record a { tasks_completed = a.tasks_completed + 1 })

unfoldable pub increment_failed : String → Registry → Call Bool × Registry
unfolding has_key change
increment_failed agent_id = changing agent_id (λ a. record a { tasks_failed = a.tasks_failed + 1 })

unfoldable pub add_token_usage : String → ℕ → Registry → Call Bool × Registry
unfolding has_key change
add_token_usage agent_id tokens =
    changing agent_id (λ a. record a { token_usage = a.token_usage + tokens })
