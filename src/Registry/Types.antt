-- ===== src/Registry/Types.antt =====
-- `AgentStatus`, `AgentCapability`, `AgentInfo` and the state of `AgentRegistry`,
-- rann_agent/orchestration/agent_registry.py.
use rann_agent.Prelude.{ℕ, ◌-◌, String, Bool, false, Option, List, [], ◌∷◌, ltb}
use rann_agent.Dict.{Dict}
use rann_agent.Json.{Json, str, num, arr, obj, Items, nil, cons, Fields, end, field, opt_str}

pub data AgentStatus : Type 0 where
  starting idle busy waiting_approval completed failed cancelled timed_out : AgentStatus

unfoldable pub status_value : AgentStatus → String
status_value starting = "starting"
status_value idle = "idle"
status_value busy = "busy"
status_value waiting_approval = "waiting_approval"
status_value completed = "completed"
status_value failed = "failed"
status_value cancelled = "cancelled"
status_value timed_out = "timed_out"

pub data AgentCapability : Type 0 where
  code_write code_read terminal web_search file_delete deploy test review debug : AgentCapability

unfoldable pub capability_value : AgentCapability → String
capability_value code_write = "code_write"
capability_value code_read = "code_read"
capability_value terminal = "terminal"
capability_value web_search = "web_search"
capability_value file_delete = "file_delete"
capability_value deploy = "deploy"
capability_value test = "test"
capability_value review = "review"
capability_value debug = "debug"

pub record AgentInfo : Type 0 where
  pub id : String
  pub name : String
  pub status : AgentStatus
  pub parent_id : Option String
  pub child_ids : List String
  pub role : String
  pub capabilities : List AgentCapability
  pub created_at : ℕ
  pub last_heartbeat : ℕ
  pub current_task : Option String
  pub tasks_completed : ℕ
  pub tasks_failed : ℕ
  pub token_usage : ℕ
  pub metadata : Fields

-- `is_alive`, at the time `now`
unfoldable pub is_alive : ℕ → ℕ → AgentInfo → Bool
is_alive now ttl a = ltb (now - a.last_heartbeat) ttl

unfoldable pub names_to_items : List String → Items
names_to_items [] = nil
names_to_items (s ∷ ss) = cons (str s) (names_to_items ss)

unfoldable pub capabilities_to_items : List AgentCapability → Items
unfolding capability_value
capabilities_to_items [] = nil
capabilities_to_items (c ∷ cs) = cons (str (capability_value c)) (capabilities_to_items cs)

-- `to_dict`
unfoldable pub to_dict : AgentInfo → Json
unfolding status_value names_to_items capabilities_to_items opt_str
to_dict a = obj (
    field "id" (str a.id) (
      field "name" (str a.name) (
        field "status" (str (status_value a.status)) (
          field "parent_id" (opt_str a.parent_id) (
            field "child_ids" (arr (names_to_items a.child_ids)) (
              field "role" (str a.role) (
                field "capabilities" (arr (capabilities_to_items a.capabilities)) (
                  field "created_at" (num a.created_at) (
                    field "last_heartbeat" (num a.last_heartbeat) (
                      field "current_task" (opt_str a.current_task) (
                        field "tasks_completed" (num a.tasks_completed) (
                          field "tasks_failed" (num a.tasks_failed) (
                            field "token_usage" (num a.token_usage)
                              (field "metadata" (obj a.metadata) end))))))))))))))

-- `processes` has the agents with a subprocess; `locked` tells that a call holds the lock.
pub record Registry : Type 0 where
  pub agents : Dict AgentInfo
  pub heartbeat_ttl : ℕ
  pub processes : List String
  pub locked : Bool

-- `__init__`
unfoldable pub new_registry : ℕ → Registry
new_registry ttl = record { agents = []; heartbeat_ttl = ttl; processes = []; locked = false }
