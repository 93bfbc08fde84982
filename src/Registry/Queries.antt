-- ===== src/Registry/Queries.antt =====
-- The methods of `AgentRegistry` that only read, and the removal of stale agents,
-- rann_agent/orchestration/agent_registry.py.
use rann_agent.Prelude.{
  ℕ, ◌+◌, String, Bool, not, Option, none, some, List, [], ◌∷◌, str_eq, anyb, filterb, length,
  if◌then◌else◌,
}
use rann_agent.Dict.{Dict, lookup, insert, values}
use rann_agent.Registry.Types.{
  AgentStatus, idle, status_value, AgentCapability, capability_value, AgentInfo, is_alive, Registry,
}
use rann_agent.Registry.Methods.{Call, deregister}

-- `==` of two members of an enumeration
abbrev pub same_status : AgentStatus → AgentStatus → Bool
same_status s t = str_eq (status_value s) (status_value t)

unfoldable pub get : String → Registry → Option AgentInfo
unfolding lookup
get agent_id r = lookup agent_id r.agents

unfoldable pub get_all : Registry → List AgentInfo
unfolding values
get_all r = values r.agents

unfoldable pub get_by_role : String → Registry → List AgentInfo
unfolding values
get_by_role role r = filterb (λ a. str_eq a.role role) (values r.agents)

unfoldable pub get_by_capability : AgentCapability → Registry → List AgentInfo
unfolding values capability_value
get_by_capability c r =
    filterb (λ a. anyb (λ x. str_eq (capability_value x) (capability_value c)) a.capabilities)
      (values r.agents)

unfoldable pub get_by_status : AgentStatus → Registry → List AgentInfo
unfolding values status_value
get_by_status s r = filterb (λ a. same_status a.status s) (values r.agents)

-- The agents with these ids, those that are unknown left out.
abbrev keep_found : Option AgentInfo → List AgentInfo → List AgentInfo
keep_found none rest = rest
keep_found (some a) rest = a ∷ rest

unfoldable pub agents_of : List String → Dict AgentInfo → List AgentInfo
unfolding lookup
agents_of [] d = []
agents_of (c ∷ cs) d = keep_found (lookup c d) (agents_of cs d)

abbrev children_in : Option AgentInfo → Dict AgentInfo → List AgentInfo
children_in none d = []
children_in (some a) d = agents_of a.child_ids d

unfoldable pub get_children : String → Registry → List AgentInfo
unfolding lookup agents_of
get_children agent_id r = children_in (lookup agent_id r.agents) r.agents

abbrev parent_in : Option String → Dict AgentInfo → Option AgentInfo
parent_in none d = none
parent_in (some p) d = lookup p d

abbrev parent_of : Option AgentInfo → Dict AgentInfo → Option AgentInfo
parent_of none d = none
parent_of (some a) d = parent_in a.parent_id d

unfoldable pub get_parent : String → Registry → Option AgentInfo
unfolding lookup
get_parent agent_id r = parent_of (lookup agent_id r.agents) r.agents

abbrev with_role : Option String → List AgentInfo → List AgentInfo
with_role none agents = agents
with_role (some role) agents =
    if str_eq role "" then agents else filterb (λ a. str_eq a.role role) agents

unfoldable pub get_idle_agents : Option String → Registry → List AgentInfo
unfolding values status_value
get_idle_agents role r = with_role role (filterb (λ a. same_status a.status idle) (values r.agents))

-- `get_stale_agents`, at the time `now`
unfoldable pub get_stale_agents : ℕ → Registry → List AgentInfo
unfolding values is_alive
get_stale_agents now r = filterb (λ a. not (is_alive now r.heartbeat_ttl a)) (values r.agents)

abbrev pub childless : AgentInfo → List String → List String
childless a rest = elim a.child_ids [ [] ↦ a.id ∷ rest | _ ∷ _ ↦ rest ]

unfoldable pub childless_ids : List AgentInfo → List String
childless_ids [] = []
childless_ids (a ∷ as') = childless a (childless_ids as')

-- `cleanup_stale_agents` answers with these ids, and makes a task of `deregister` for each.
unfoldable pub cleanup_stale_agents : ℕ → Registry → List String
unfolding childless_ids get_stale_agents
cleanup_stale_agents now r = childless_ids (get_stale_agents now r)

-- The tasks, in the order in which they were made.
unfoldable pub deregister_all :
    (String → Bool) → ℕ → List String → Registry → List (Call Bool) × Registry
unfolding deregister
deregister_all dies n [] r = ([], r)
deregister_all dies n (c ∷ cs) r =
    let (answer, r') = deregister dies n c r in
    let (answers, r'') = deregister_all dies n cs r' in (answer ∷ answers, r'')

pub record Stats : Type 0 where
  pub total_agents : ℕ
  pub by_status : Dict ℕ
  pub by_role : Dict ℕ
  pub total_token_usage : ℕ
  pub stale_agents : ℕ

abbrev or_zero : Option ℕ → ℕ
or_zero none = 0
or_zero (some n) = n

-- The loop of `stats` over one kind of name.
unfoldable pub count_names : List String → Dict ℕ → Dict ℕ
unfolding lookup insert
count_names [] d = d
count_names (s ∷ ss) d = count_names ss (insert s (or_zero (lookup s d) + 1) d)

unfoldable pub names_by : (AgentInfo → String) → List AgentInfo → List String
names_by f [] = []
names_by f (a ∷ as') = f a ∷ names_by f as'

unfoldable pub total_tokens : List AgentInfo → ℕ
total_tokens [] = 0
total_tokens (a ∷ as') = a.token_usage + total_tokens as'

unfoldable pub stats : ℕ → Registry → Stats
unfolding values count_names names_by total_tokens get_stale_agents status_value
stats now r = record {
  total_agents = length (values r.agents);
  by_status = count_names (names_by (λ a. status_value a.status) (values r.agents)) [];
  by_role = count_names (names_by (λ a. a.role) (values r.agents)) [];
  total_token_usage = total_tokens (values r.agents);
  stale_agents = length (get_stale_agents now r);
}
