-- ===== src/Permission/Types.antt =====
-- The tools, calls and answers of rann_agent/core/tool_permission.py.
use rann_agent.Prelude.{ℕ, String, Bool, Option, List, [], ◌∷◌}
use rann_agent.Dict.{Dict, insert}
use rann_agent.Json.{Fields}

pub data ToolCategory : Type 0 where
  read analysis write refactor build test deploy system network destructive : ToolCategory

-- The patterns are regular expressions.
pub record ToolDefinition : Type 0 where
  pub name : String
  pub category : ToolCategory
  pub risk_level : String
  pub description : String
  pub required_permissions : List String
  pub examples : List String
  pub patterns : List String

abbrev tool : String → ToolCategory → String → String → List String → ToolDefinition
tool name category risk description patterns = record {
  name = name;
  category = category;
  risk_level = risk;
  description = description;
  required_permissions = [];
  examples = [];
  patterns = patterns;
}

-- `BUILTIN_TOOLS`
abbrev pub builtin_tools : List ToolDefinition
builtin_tools =
    tool "read_file" read "low" "Read file contents" ("read.*file" ∷ "cat" ∷ "view.*file" ∷ [])
    ∷ tool "search_files" read "low" "Search file contents"
        ("grep" ∷ "search.*file" ∷ "rg" ∷ "find.*string" ∷ [])
    ∷ tool "browser_exec" read "low" "Read web pages via browser"
        ("browse" ∷ "fetch.*url" ∷ "scrape" ∷ [])
    ∷ tool "write_file" write "medium" "Write/create files"
        ("write.*file" ∷ "create.*file" ∷ "edit.*file" ∷ [])
    ∷ tool "patch" write "medium" "Modify existing files"
        ("patch" ∷ "modify.*file" ∷ "replace.*string" ∷ [])
    ∷ tool "terminal" system "high" "Execute shell commands"
        ("shell" ∷ "bash" ∷ "exec" ∷ "run.*command" ∷ "subprocess" ∷ [])
    ∷ tool "execute_code" build "medium" "Execute Python code"
        ("python.*exec" ∷ "run.*code" ∷ "execute.*code" ∷ [])
    ∷ tool "execute_code" test "medium" "Run tests" ("pytest" ∷ "test" ∷ "unittest" ∷ [])
    ∷ tool "delegate_task" deploy "high" "Deploy to cloud platforms"
        ("deploy" ∷ "vercel" ∷ "heroku" ∷ "render" ∷ [])
    ∷ tool "terminal" destructive "critical" "Delete files or directories"
        ("rm\\s+-rf" ∷ "rmdir" ∷ "delete.*file" ∷ "unlink" ∷ [])
    ∷ tool "terminal" destructive "critical" "Git reset or force push"
        ("git.*reset.*hard" ∷ "git.*force.*push" ∷ "git.*clean.*-fd" ∷ [])
    ∷ []

pub data CallStatus : Type 0 where
  pending allowed denied error : CallStatus

-- The text of a reason, as what it is made of.
pub data Reason : Type 0 where
  on_denylist not_on_allowlist : String → Reason
  prohibited : String → Reason
  requires_approval : String → String → Reason
  lets_through : String → Option ToolCategory → String → Reason
  noted approved_by denied_by : String → Reason

pub record ToolCall : Type 0 where
  pub call_id : String
  pub tool_name : String
  pub arguments : Fields
  pub timestamp : ℕ
  pub status : CallStatus
  pub denial_reason : Option Reason
  pub policy_override : Bool
  pub override_reason : Option Reason
  pub execution_time_ms : Option ℕ

pub data PermissionDecision : Type 0 where
  allowed denied approval_required blocked : PermissionDecision

pub record PolicyCheckResult : Type 0 where
  pub decision : PermissionDecision
  pub tool_name : String
  pub reason : Reason
  pub requires_approval : Bool
  pub approval_level : Option ℕ
  pub policy_matched : Option String

-- A pending call is the very object in the log: `pending` has its place there.
pub record Layer : Type 0 where
  pub allowlist : List String
  pub denylist : List String
  pub require_approval_above : String
  pub tool_registry : Dict ToolDefinition
  pub audit_log : List ToolCall
  pub pending : Dict ℕ

unfoldable pub by_name : List ToolDefinition → Dict ToolDefinition → Dict ToolDefinition
unfolding insert
by_name [] d = d
by_name (t ∷ ts) d = by_name ts (insert t.name t d)

-- `__init__`
unfoldable pub new_layer : List String → List String → String → Layer
unfolding by_name
new_layer allowlist denylist above = record {
  allowlist = allowlist;
  denylist = denylist;
  require_approval_above = above;
  tool_registry = by_name builtin_tools [];
  audit_log = [];
  pending = [];
}
