-- ===== src/ToolPolicy/Defs.antt =====
-- `ToolPolicy`, `PolicyDecision` and `ToolPolicyEngine` of rann_agent/orchestration/tool_policy.py.
-- A set of texts is a list. The texts of the reasons are data. Costs are millionths.
use rann_agent.Prelude.{
  ℕ, ◌+◌, String, Bool, true, false, not, ◌&&◌, Option, none, some, List, [], ◌∷◌, str_eq, ltb, leb,
  anyb, if◌then◌else◌,
}
use rann_agent.Dict.{Dict, lookup, insert}

pub data RiskLevel : Type 0 where
  safe low medium high critical : RiskLevel

pub data PolicyAction : Type 0 where
  allow deny approve sandbox rate_limit : PolicyAction

pub record Policy : Type 0 where
  pub tool_name : String
  pub risk_level : RiskLevel
  pub default_action : PolicyAction
  pub requires_approval : Bool
  pub allowed_roles : List String
  pub max_calls_per_run : ℕ
  pub max_concurrent : ℕ
  pub sandbox_required : Bool
  pub sandbox_type : String
  pub cost_per_call : ℕ
  pub audit_all_calls : Bool
  pub log_parameters : Bool
  pub blocked_users : List String
  pub blocked_contexts : List String

-- ToolPolicy(tool_name, risk_level, default_action), the other fields by their defaults
unfoldable pub new_policy : String → RiskLevel → PolicyAction → Policy
new_policy tool_name risk_level default_action = record {
  tool_name = tool_name;
  risk_level = risk_level;
  default_action = default_action;
  requires_approval = false;
  allowed_roles = [];
  max_calls_per_run = 0;
  max_concurrent = 1;
  sandbox_required = false;
  sandbox_type = "none";
  cost_per_call = 0;
  audit_all_calls = false;
  log_parameters = false;
  blocked_users = [];
  blocked_contexts = [];
}

-- Why a call is decided as it is.
pub data Reason : Type 0 where
  no_policy user_blocked context_blocked role_not_allowed by_default : Reason
  rate_limited : (current limit : ℕ) → Reason

-- `conditions` holds at most the sandbox type.
pub record Decision : Type 0 where
  pub action : PolicyAction
  pub allowed : Bool
  pub reason : Reason
  pub risk_level : RiskLevel
  pub conditions : Option String

pub record Engine : Type 0 where
  pub policies : Dict Policy
  pub call_counts : Dict ℕ

-- `_load_default_policies`
unfoldable pub default_policies : Dict Policy
unfolding new_policy
default_policies =
    ("file_read", record (new_policy "file_read" safe allow) { log_parameters = true })
    ∷ ("file_search", new_policy "file_search" safe allow)
    ∷ ("web_search", new_policy "web_search" safe allow)
    ∷ ("web_extract", new_policy "web_extract" safe allow)
    ∷ ("memory_search", new_policy "memory_search" safe allow)
    ∷ (
      "file_write",
      record (new_policy "file_write" low allow) { audit_all_calls = true; log_parameters = true },
    )
    ∷ ("git", record (new_policy "git" low allow) { audit_all_calls = true })
    ∷ (
      "terminal",
      record (new_policy "terminal" medium approve) {
        audit_all_calls = true;
        log_parameters = true;
      },
    )
    ∷ (
      "code_execution",
      record (new_policy "code_execution" high approve) {
        sandbox_required = true;
        audit_all_calls = true;
      },
    )
    ∷ ("docker", record (new_policy "docker" critical deny) { requires_approval = true })
    ∷ ("kubernetes", record (new_policy "kubernetes" critical deny) { requires_approval = true })
    ∷ ("database", record (new_policy "database" high deny) { requires_approval = true })
    ∷ []

-- ToolPolicyEngine()
unfoldable pub new_engine : Engine
unfolding default_policies
new_engine = record { policies = default_policies; call_counts = [] }

unfoldable pub get_policy : String → Engine → Option Policy
unfolding lookup
get_policy tool_name e = lookup tool_name e.policies

-- `d.get(k, 0)`
abbrev pub count_of : Option ℕ → ℕ
count_of none = 0
count_of (some n) = n

-- `x in xs`
abbrev pub contains : String → List String → Bool
contains x xs = anyb (λ y. str_eq y x) xs

-- `x and x in xs`, for an optional text; the empty text is as good as none.
abbrev pub given_in : Option String → List String → Bool
given_in none xs = false
given_in (some x) xs = not (str_eq x "") && contains x xs

-- A text that is given and not empty.
abbrev pub given : Option String → Bool
given none = false
given (some x) = not (str_eq x "")

abbrev pub is_empty {ℓ} : {A : Type ℓ} → List A → Bool
is_empty [] = true
is_empty (x ∷ xs) = false

-- `_get_user_role` answers "default" for every user.
abbrev pub user_role : String
user_role = "default"

-- `action in {ALLOW, SANDBOX}`
abbrev pub lets_through : PolicyAction → Bool
lets_through allow = true
lets_through sandbox = true
lets_through _ = false

abbrev denied : PolicyAction → Reason → RiskLevel → Decision
denied action reason risk = record {
  action = action;
  allowed = false;
  reason = reason;
  risk_level = risk;
  conditions = none;
}

-- `check`, for the tool's policy and the calls counted so far.
unfoldable pub check_policy : Option String → Option String → ℕ → Policy → Decision
check_policy user context current p =
    if given_in user p.blocked_users
    then denied deny user_blocked p.risk_level
    else if given_in context p.blocked_contexts
    then denied deny context_blocked p.risk_level
    else if not (is_empty p.allowed_roles) && given user && not (contains user_role p.allowed_roles)
    then denied deny role_not_allowed p.risk_level
    else if ltb 0 p.max_calls_per_run && leb p.max_calls_per_run current
    then denied rate_limit (rate_limited current p.max_calls_per_run) p.risk_level
    else record {
      action = p.default_action;
      allowed = lets_through p.default_action;
      reason = by_default;
      risk_level = p.risk_level;
      conditions = if p.sandbox_required then some p.sandbox_type else none;
    }

abbrev check_found : Option String → Option String → ℕ → Option Policy → Decision
check_found user context current none = denied deny no_policy critical
check_found user context current (some p) = check_policy user context current p

-- `check`; its `parameters` are not looked at.
unfoldable pub check : String → Option String → Option String → Engine → Decision
check tool_name user context e =
    check_found user context (count_of (lookup tool_name e.call_counts))
      (lookup tool_name e.policies)

unfoldable pub record_call : String → Engine → Engine
record_call tool_name e = record e {
  call_counts = insert tool_name (count_of (lookup tool_name e.call_counts) + 1) e.call_counts;
}

unfoldable pub reset_counts : Engine → Engine
reset_counts e = record e { call_counts = [] }

unfoldable pub set_policy : Policy → Engine → Engine
set_policy p e = record e { policies = insert p.tool_name p e.policies }
