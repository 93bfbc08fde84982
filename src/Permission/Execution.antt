-- ===== src/Permission/Execution.antt =====
-- What `execute_with_permission` of rann_agent/core/tool_permission.py runs.
use rann_agent.Prelude.{
  ℕ, String, ◌≡◌, ◌⊎◌, inl, inr, refl, true, false, Option, none, some, List, [], ◌∷◌, ◌++◌, length,
  eq_refl, leb, Bool-cases,
}
use rann_agent.Exec.{Result, ok, err}
use rann_agent.Dict.{lookup-insert}
use rann_agent.Json.{Fields}
use rann_agent.Permission.Types.{
  ToolDefinition, CallStatus, pending, allowed, denied, ToolCall, approval_required,
  PolicyCheckResult, Layer,
}
use rann_agent.Permission.Layer.{
  Texts, Failure, named_in, rank, effective_risk, new_call, first_prohibited, get_tool_definition,
  wait_for_approval, by_rank, by_prohibition, is_listed, check_permission, log_call, last_match,
  is_match, status_is, is_approved, call_at, Executed, after_run, after_check,
  execute_with_permission,
}

last_match-snoc :
    (tool_name : String) (s : CallStatus) (cs : List ToolCall) (c : ToolCall)
    → is_match tool_name s c ≡ true
    → last_match tool_name s (cs ++ (c ∷ [])) ≡ some c
unfolding last_match
last_match-snoc tool_name s [] c h = rw h refl
last_match-snoc tool_name s (d ∷ cs) c h = rw (last_match-snoc tool_name s cs c h) refl

call_at-snoc : (cs : List ToolCall) (c : ToolCall) → call_at (length cs) (cs ++ (c ∷ [])) ≡ some c
unfolding call_at
call_at-snoc [] c = refl
call_at-snoc (d ∷ cs) c = call_at-snoc cs c

-- How a check ends: it raises, it denies, it lets the call through, or it logs a pending call.
module _ (texts : Texts) (tool_name : String) (args : Fields) (call_id : String) (now : ℕ) where
  abbrev pub Waits : Layer → Type 0
  Waits l =
      (last_match tool_name pending l.audit_log
        ≡ some (new_call call_id tool_name args now pending none))
      × (is_approved call_id l ≡ false)

  abbrev pub Ends : Result Failure PolicyCheckResult × Layer → Type 0
  Ends (err e, l) = Unit
  Ends (ok r, l) =
      (r.decision ≡ denied) ⊎ (r.decision ≡ allowed) ⊎ ((r.decision ≡ approval_required) × Waits l)

  wait_for_approval-Ends :
      (risk : String) (n : ℕ) (l : Layer)
      → Ends (wait_for_approval texts tool_name args call_id now risk n l)
  unfolding log_call is_approved status_is
  wait_for_approval-Ends risk n l = inr (
      inr (
        refl,
        (
          last_match-snoc tool_name pending l.audit_log
              (new_call call_id tool_name args now pending none) (rw (eq_refl tool_name) refl),
          rw (lookup-insert call_id call_id (length l.audit_log) l.pending, eq_refl call_id)
              (rw (call_at-snoc l.audit_log (new_call call_id tool_name args now pending none))
                refl),
        ),
      ))

  check_permission-Ends :
      (risk_level : Option String) (ps : List String) (l : Layer)
      → Ends (check_permission texts tool_name args call_id now risk_level ps l)
  unfolding check_permission
  check_permission-Ends risk_level ps l = elim (Bool-cases (named_in tool_name l.denylist)) [
    | inl e ↦ rw e (inl refl)
    | inr e ↦ elim (Bool-cases (is_listed texts tool_name args call_id now l.allowlist)) [
      | inr f ↦ rw (e, f) (inl refl)
      | inl f ↦ rw (e, f) (prohibited (first_prohibited texts tool_name args ps))
    ]
  ]
    where
      ranked :
          (risk : String) (t : Option ToolDefinition) (n m : Option ℕ)
          → Ends (by_rank texts tool_name args call_id now risk t n m l)
      ranked risk t none m = tt
      ranked risk t (some n) none = tt
      ranked risk t (some n) (some m) = elim (Bool-cases (leb m n)) [
        | inl e ↦ rw e (wait_for_approval-Ends risk n l)
        | inr e ↦ rw e (inr (inl refl))
      ]

      prohibited :
          (q : Option String)
          → Ends (by_prohibition texts tool_name args call_id now q risk_level l)
      prohibited (some p) = inl refl
      prohibited none =
          let t = get_tool_definition tool_name l in
          ranked (effective_risk risk_level t) t (rank (effective_risk risk_level t))
            (rank l.require_approval_above)

  module _ {A : Type 0} (executor : Fields → Result String A) where
    -- What the call comes to, given what the check answered.
    abbrev pub Outcome : Result Failure PolicyCheckResult × Layer → Executed A → Type 0
    Outcome (err e, l) out = out ≡ (err e, l)
    Outcome (ok r, l) out =
        ((r.decision ≡ allowed) × (out ≡ after_run r tool_name (executor args) l))
        ⊎ (((r.decision ≡ denied) ⊎ (r.decision ≡ approval_required)) × (out ≡ (ok (r, none), l)))

    after_check-Outcome :
        (c : Result Failure PolicyCheckResult × Layer)
        → Ends c
        → Outcome c (after_check executor tool_name args c)
    after_check-Outcome (err e, l) h = refl
    after_check-Outcome (ok r, l) (inl e) = inr (inl e, rw e refl)
    after_check-Outcome (ok r, l) (inr (inl e)) = inl (e, rw e refl)
    after_check-Outcome (ok r, l) (inr (inr (e, (f, g)))) = inr (inr e, rw (e, f, g) refl)

    -- The executor is called exactly where the check itself allows the call. Where it asks for approval,
    -- the call is refused whatever approvals have been recorded before: each check logs a new pending
    -- call, and it is this one whose approval is looked for.
    pub execute_with_permission-Outcome :
        (risk_level : Option String) (ps : List String) (l : Layer)
        → Outcome
            (check_permission texts tool_name args call_id now risk_level ps l)
            (execute_with_permission texts executor tool_name args call_id now risk_level ps l)
    unfolding execute_with_permission
    execute_with_permission-Outcome risk_level ps l =
        after_check-Outcome (check_permission texts tool_name args call_id now risk_level ps l)
          (check_permission-Ends risk_level ps l)
