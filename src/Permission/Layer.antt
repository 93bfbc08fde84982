-- ===== src/Permission/Layer.antt =====
-- `ToolPermissionLayer` of rann_agent/core/tool_permission.py. The id of a call, which is drawn, and the
-- time are arguments; `None` and an empty list of prohibited actions are the same.
use rann_agent.Prelude.{
  zero, suc, ℕ, ◌-◌, String, Bool, true, false, not, ◌&&◌, Option, none, some, List, [], ◌∷◌, ◌++◌,
  length, drop, filterb, anyb, str_eq, leb, if◌then◌else◌,
}
use rann_agent.Exec.{Result, ok, err, Exec}
use rann_agent.Dict.{Dict, lookup, insert}
use rann_agent.Json.{Fields}
use rann_agent.Permission.Types.{
  ToolCategory, ToolDefinition, CallStatus, pending, allowed, denied, error, Reason, on_denylist,
  not_on_allowlist, prohibited, requires_approval, lets_through, noted, approved_by, denied_by,
  ToolCall, PermissionDecision, approval_required, blocked, PolicyCheckResult, Layer,
}

-- What is asked of texts: `str.lower`, `x in y` and `str` of the arguments.
pub record Texts : Type 0 where
  pub lower : String → String
  pub within : String → String → Bool
  pub shown : Fields → String

-- An unknown risk level, or the exception of the executor.
pub data Failure : Type 0 where
  unknown_risk : String → Failure
  raised : String → Failure

unfoldable pub status_is : CallStatus → CallStatus → Bool
status_is pending pending = true
status_is allowed allowed = true
status_is denied denied = true
status_is error error = true
status_is _ _ = false

-- `register_tool`
unfoldable pub register_tool : ToolDefinition → Layer → Layer
unfolding insert
register_tool t l = record l { tool_registry = insert t.name t l.tool_registry }

unfoldable pub get_tool_definition : String → Layer → Option ToolDefinition
unfolding lookup
get_tool_definition tool_name l = lookup tool_name l.tool_registry

abbrev pub named_in : String → List String → Bool
named_in x = anyb (λ y. str_eq y x)

-- `risk_order.index`
unfoldable pub rank : String → Option ℕ
rank risk =
    if str_eq risk "low"
    then some 0
    else if str_eq risk "medium"
    then some 1
    else if str_eq risk "high"
    then some 2
    else if str_eq risk "critical"
    then some 3
    else none

abbrev pub defined_risk : Option ToolDefinition → String
defined_risk none = "low"
defined_risk (some t) = t.risk_level

-- `risk_level or (tool_def.risk_level if tool_def else "low")`
abbrev pub effective_risk : Option String → Option ToolDefinition → String
effective_risk none t = defined_risk t
effective_risk (some risk) t = if str_eq risk "" then defined_risk t else risk

abbrev pub category_of : Option ToolDefinition → Option ToolCategory
category_of none = none
category_of (some t) = some t.category

abbrev pub new_call : String → String → Fields → ℕ → CallStatus → Option Reason → ToolCall
new_call call_id tool_name arguments now status reason = record {
  call_id = call_id;
  tool_name = tool_name;
  arguments = arguments;
  timestamp = now;
  status = status;
  denial_reason = reason;
  policy_override = false;
  override_reason = none;
  execution_time_ms = none;
}

-- `_log_call`
unfoldable pub log_call : ToolCall → Layer → Layer
log_call c l = record l { audit_log = l.audit_log ++ (c ∷ []) }

module _ (texts : Texts) where
  -- The first prohibited action that the name or the arguments have in them.
  unfoldable pub first_prohibited : String → Fields → List String → Option String
  first_prohibited tool_name args [] = none
  first_prohibited tool_name args (p ∷ ps) =
      let rest = first_prohibited tool_name args ps in
      if texts.within (texts.lower p) (texts.lower tool_name)
      then some p
      else if texts.within (texts.lower p) (texts.lower (texts.shown args))
      then some p
      else rest

  module _ (tool_name : String) (args : Fields) (call_id : String) (now : ℕ) where
    abbrev pub deny : Reason → Option String → Exec Layer Failure PolicyCheckResult
    deny reason matched l = (
      ok (record {
        decision = denied;
        tool_name = tool_name;
        reason = reason;
        requires_approval = false;
        approval_level = none;
        policy_matched = matched;
      }),
      log_call (new_call call_id tool_name args now denied (some reason)) l,
    )

    abbrev pub wait_for_approval : String → ℕ → Exec Layer Failure PolicyCheckResult
    wait_for_approval risk level l = (
      ok (record {
        decision = approval_required;
        tool_name = tool_name;
        reason = requires_approval tool_name risk;
        requires_approval = true;
        approval_level = some level;
        policy_matched = some "risk_based";
      }),
      record (log_call (new_call call_id tool_name args now pending none) l) {
        pending = insert call_id (length l.audit_log) l.pending;
      },
    )

    abbrev pub let_through : String → Option ToolDefinition → Exec Layer Failure PolicyCheckResult
    let_through risk t l = (
      ok (record {
        decision = allowed;
        tool_name = tool_name;
        reason = lets_through tool_name (category_of t) risk;
        requires_approval = false;
        approval_level = none;
        policy_matched = none;
      }),
      log_call (new_call call_id tool_name args now allowed none) l,
    )

    -- The comparison of the two ranks, the one of the risk being asked for first.
    abbrev pub by_rank :
        String → Option ToolDefinition → Option ℕ → Option ℕ → Exec Layer Failure PolicyCheckResult
    by_rank risk t none above l = (err (unknown_risk risk), l)
    by_rank risk t (some n) none l = (err (unknown_risk l.require_approval_above), l)
    by_rank risk t (some n) (some m) l =
        if leb m n then wait_for_approval risk n l else let_through risk t l

    abbrev pub by_risk : String → Option ToolDefinition → Exec Layer Failure PolicyCheckResult
    by_risk risk t l = by_rank risk t (rank risk) (rank l.require_approval_above) l

    abbrev pub by_prohibition : Option String → Option String → Exec Layer Failure PolicyCheckResult
    by_prohibition (some p) risk_level l = deny (prohibited p) (some "prohibited_actions") l
    by_prohibition none risk_level l =
        let t = get_tool_definition tool_name l in by_risk (effective_risk risk_level t) t l

    -- A list of allowed tools that is empty allows every tool.
    abbrev pub is_listed : List String → Bool
    is_listed [] = true
    is_listed (x ∷ xs) = named_in tool_name (x ∷ xs)

    -- `check_permission`
    unfoldable pub check_permission :
        Option String → List String → Exec Layer Failure PolicyCheckResult
    unfolding log_call get_tool_definition rank first_prohibited insert
    check_permission risk_level prohibited_actions l =
        if named_in tool_name l.denylist
        then deny (on_denylist tool_name) none l
        else if not (is_listed l.allowlist)
        then deny (not_on_allowlist tool_name) none l
        else by_prohibition (first_prohibited tool_name args prohibited_actions) risk_level l

-- The call at a place of the log.
unfoldable pub call_at : ℕ → List ToolCall → Option ToolCall
call_at i [] = none
call_at zero (c ∷ cs) = some c
call_at (suc i) (c ∷ cs) = call_at i cs

unfoldable pub change_at : ℕ → (ToolCall → ToolCall) → List ToolCall → List ToolCall
change_at i f [] = []
change_at zero f (c ∷ cs) = f c ∷ cs
change_at (suc i) f (c ∷ cs) = c ∷ change_at i f cs

-- The loop over the log, which ends at the first call of the id.
unfoldable pub change_first : String → (ToolCall → ToolCall) → List ToolCall → List ToolCall
change_first call_id f [] = []
change_first call_id f (c ∷ cs) =
    let rest = change_first call_id f cs in if str_eq c.call_id call_id then f c ∷ cs else c ∷ rest

abbrev pub settle : String → (ToolCall → ToolCall) → Option ℕ → Layer → Bool × Layer
settle call_id f none l = (false, l)
settle call_id f (some i) l =
    (true, record l { audit_log = change_first call_id f (change_at i f l.audit_log) })

abbrev pub or_unknown : Option String → String
or_unknown none = "unknown"
or_unknown (some s) = if str_eq s "" then "unknown" else s

abbrev pub reason_or : Option String → Reason → Reason
reason_or none r = r
reason_or (some s) r = if str_eq s "" then r else noted s

abbrev pub approve : Reason → ToolCall → ToolCall
approve reason c = record c {
  status = allowed;
  policy_override = true;
  override_reason = some reason;
}

-- `record_approval`
unfoldable pub record_approval : String → Option String → Option String → Layer → Bool × Layer
unfolding lookup change_at change_first
record_approval call_id by notes l =
    settle call_id (approve (reason_or notes (approved_by (or_unknown by))))
      (lookup call_id l.pending) l

abbrev pub refuse : Reason → ToolCall → ToolCall
refuse reason c = record c { status = denied; denial_reason = some reason }

-- `record_denial`
unfoldable pub record_denial : String → Option String → Option String → Layer → Bool × Layer
unfolding lookup change_at change_first
record_denial call_id by reason l =
    settle call_id (refuse (reason_or reason (denied_by (or_unknown by))))
      (lookup call_id l.pending) l

abbrev pub call_of : Option ℕ → List ToolCall → Option ToolCall
call_of none cs = none
call_of (some i) cs = call_at i cs

abbrev pub has_status : CallStatus → Option ToolCall → Bool
has_status s none = false
has_status s (some c) = status_is c.status s

-- `is_approved`
unfoldable pub is_approved : String → Layer → Bool
unfolding lookup call_at status_is
is_approved call_id l = has_status allowed (call_of (lookup call_id l.pending) l.audit_log)

-- `get_pending_approvals`
abbrev keep_pending : Option ToolCall → List ToolCall → List ToolCall
keep_pending none rest = rest
keep_pending (some c) rest = if status_is c.status pending then c ∷ rest else rest

unfoldable pub pending_calls : Dict ℕ → List ToolCall → List ToolCall
unfolding call_at status_is
pending_calls [] cs = []
pending_calls ((k, i) ∷ d) cs = keep_pending (call_at i cs) (pending_calls d cs)

unfoldable pub get_pending_approvals : Layer → List ToolCall
unfolding pending_calls
get_pending_approvals l = pending_calls l.pending l.audit_log

-- `self._audit_log[-limit:]`: a limit of 0 keeps the whole log.
abbrev pub newest : ℕ → List ToolCall → List ToolCall
newest zero cs = cs
newest (suc n) cs = drop (length cs - suc n) cs

abbrev with_name : Option String → List ToolCall → List ToolCall
with_name none cs = cs
with_name (some n) cs = if str_eq n "" then cs else filterb (λ c. str_eq c.tool_name n) cs

abbrev with_status : Option CallStatus → List ToolCall → List ToolCall
with_status none cs = cs
with_status (some s) cs = filterb (λ c. status_is c.status s) cs

-- `get_audit_log`
unfoldable pub get_audit_log : Option String → Option CallStatus → ℕ → Layer → List ToolCall
unfolding status_is
get_audit_log tool_name status limit l =
    with_status status (with_name tool_name (newest limit l.audit_log))

-- `c.tool_name == tool_name and c.status == …`
abbrev pub is_match : String → CallStatus → ToolCall → Bool
is_match tool_name s c = str_eq c.tool_name tool_name && status_is c.status s

-- `matching_calls[-1]`, where there is one
abbrev pub or_call : ToolCall → Bool → Option ToolCall → Option ToolCall
or_call c b (some d) = some d
or_call c true none = some c
or_call c false none = none

unfoldable pub last_match : String → CallStatus → List ToolCall → Option ToolCall
unfolding status_is
last_match tool_name s [] = none
last_match tool_name s (c ∷ cs) = or_call c (is_match tool_name s c) (last_match tool_name s cs)

-- `matching[-1].status = "error"`, where there is one
unfoldable pub mark_error : String → List ToolCall → List ToolCall
unfolding status_is
mark_error tool_name [] = []
mark_error tool_name (c ∷ cs) =
    let rest = mark_error tool_name cs in
    if anyb (is_match tool_name allowed) cs
    then c ∷ rest
    else if is_match tool_name allowed c
    then record c { status = error } ∷ cs
    else c ∷ cs

-- The answer: the result of the check, and what the executor returned, where it was called.
abbrev pub Executed : Type 0 → Type 0
Executed A = Result Failure (PolicyCheckResult × Option A) × Layer

module _ {A : Type 0} where
  -- The call of the executor.
  abbrev pub after_run : PolicyCheckResult → String → Result String A → Layer → Executed A
  after_run res tool_name (ok a) l = (ok (res, some a), l)
  after_run res tool_name (err e) l =
      (err (raised e), record l { audit_log = mark_error tool_name l.audit_log })

  -- A call that still waits, the newest of the tool.
  abbrev pub if_approved : Option ToolCall → PolicyCheckResult → Executed A → Layer → Executed A
  if_approved none res go l = go
  if_approved (some c) res go l = if is_approved c.call_id l then go else (ok (res, none), l)

  abbrev pub by_decision :
      PermissionDecision → PolicyCheckResult → String → Executed A → Layer → Executed A
  by_decision denied res tool_name go l = (ok (res, none), l)
  by_decision approval_required res tool_name go l =
      if_approved (last_match tool_name pending l.audit_log) res go l
  by_decision allowed res tool_name go l = go
  by_decision blocked res tool_name go l = go

  abbrev pub after_check :
      (Fields → Result String A)
      → String
      → Fields
      → Result Failure PolicyCheckResult × Layer
      → Executed A
  after_check executor tool_name args (err e, l) = (err e, l)
  after_check executor tool_name args (ok res, l) =
      by_decision res.decision res tool_name (after_run res tool_name (executor args) l) l

  -- `execute_with_permission`
  unfoldable pub execute_with_permission :
      Texts
      → (Fields → Result String A)
      → String
      → Fields
      → String
      → ℕ
      → Option String
      → List String
      → Layer
      → Executed A
  unfolding check_permission is_approved last_match mark_error
  execute_with_permission texts executor tool_name args call_id now risk_level prohibited_actions
        l =
      after_check executor tool_name args
        (check_permission texts tool_name args call_id now risk_level prohibited_actions l)
