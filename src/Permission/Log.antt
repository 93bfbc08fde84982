-- ===== src/Permission/Log.antt =====
-- The audit log of rann_agent/core/tool_permission.py over any calls of the layer.
use rann_agent.Prelude.{
  zero, suc, ℕ, String, ◌≡◌, inl, inr, refl, ◌∙◌, Option, none, some, List, [], ◌∷◌, ◌++◌, anyb,
  str_eq, leb, Bool-cases,
}
use rann_agent.Exec.{Result, ok, err}
use rann_agent.Dict.{lookup}
use rann_agent.Json.{Fields}
use rann_agent.Permission.Types.{ToolDefinition, allowed, ToolCall, PolicyCheckResult, Layer}
use rann_agent.Permission.Layer.{
  Texts, Failure, named_in, rank, effective_risk, first_prohibited, get_tool_definition, by_rank,
  by_prohibition, is_listed, check_permission, log_call, is_match, Executed, after_run,
  execute_with_permission, mark_error, register_tool, record_approval, record_denial, settle,
  change_at, change_first,
}
use rann_agent.Permission.Execution.{Outcome, execute_with_permission-Outcome}

-- The same call, whatever has been decided of it since.
abbrev pub Same : ToolCall → ToolCall → Type 0
Same c d =
    (d.call_id ≡ c.call_id)
    × (d.tool_name ≡ c.tool_name)
    × (d.arguments ≡ c.arguments)
    × (d.timestamp ≡ c.timestamp)

-- The second log goes on where the first one ends.
abbrev pub Extends : List ToolCall → List ToolCall → Type 0
Extends [] ds = Unit
Extends (c ∷ cs) [] = ⊥
Extends (c ∷ cs) (d ∷ ds) = Same c d × Extends cs ds

Same-refl : (c : ToolCall) → Same c c
Same-refl c = (refl, refl, refl, refl)

Same-trans : (c d e : ToolCall) → Same c d → Same d e → Same c e
Same-trans c d e (a₁, b₁, c₁, d₁) (a₂, b₂, c₂, d₂) = (a₂ ∙ a₁, b₂ ∙ b₁, c₂ ∙ c₁, d₂ ∙ d₁)

Extends-refl : (cs : List ToolCall) → Extends cs cs
Extends-refl [] = tt
Extends-refl (c ∷ cs) = (Same-refl c, Extends-refl cs)

Extends-trans : (cs ds es : List ToolCall) → Extends cs ds → Extends ds es → Extends cs es
Extends-trans [] ds es h k = tt
Extends-trans (c ∷ cs) (d ∷ ds) (e ∷ es) (h, hs) (k, ks) =
    (Same-trans c d e h k, Extends-trans cs ds es hs ks)
Extends-trans (c ∷ cs) [] es h k = absurd h
Extends-trans (c ∷ cs) (d ∷ ds) [] h k = absurd k

Extends-append : (cs ds : List ToolCall) → Extends cs (cs ++ ds)
Extends-append [] ds = tt
Extends-append (c ∷ cs) ds = (Same-refl c, Extends-append cs ds)

module _ (f : ToolCall → ToolCall) (same : (c : ToolCall) → Same c (f c)) where
  change_at-Extends : (i : ℕ) (cs : List ToolCall) → Extends cs (change_at i f cs)
  unfolding change_at
  change_at-Extends i [] = tt
  change_at-Extends zero (c ∷ cs) = (same c, Extends-refl cs)
  change_at-Extends (suc i) (c ∷ cs) = (Same-refl c, change_at-Extends i cs)

  change_first-Extends : (k : String) (cs : List ToolCall) → Extends cs (change_first k f cs)
  unfolding change_first
  change_first-Extends k [] = tt
  change_first-Extends k (c ∷ cs) = elim (Bool-cases (str_eq c.call_id k)) [
    | inl e ↦ rw e (same c, Extends-refl cs)
    | inr e ↦ rw e (Same-refl c, change_first-Extends k cs)
  ]

  settle-Extends :
      (k : String) (i : Option ℕ) (l : Layer) → Extends l.audit_log (settle k f i l).1.audit_log
  settle-Extends k none l = Extends-refl l.audit_log
  settle-Extends k (some i) l =
      Extends-trans l.audit_log (change_at i f l.audit_log)
        (change_first k f (change_at i f l.audit_log)) (change_at-Extends i l.audit_log)
        (change_first-Extends k (change_at i f l.audit_log))

mark_error-Extends :
    (tool_name : String) (cs : List ToolCall) → Extends cs (mark_error tool_name cs)
unfolding mark_error
mark_error-Extends tool_name [] = tt
mark_error-Extends tool_name (c ∷ cs) = elim (Bool-cases (anyb (is_match tool_name allowed) cs)) [
  | inl e ↦ rw e (Same-refl c, mark_error-Extends tool_name cs)
  | inr e ↦ elim (Bool-cases (is_match tool_name allowed c)) [
    | inl f ↦ rw (e, f) ((refl, refl, refl, refl), Extends-refl cs)
    | inr f ↦ rw (e, f) (Same-refl c, Extends-refl cs)
  ]
]

-- A call of the layer: of `check_permission`, `record_approval`, `record_denial`,
-- `execute_with_permission` with what its executor gives, or `register_tool`.
pub data Method : Type 0 where
  check : String → Fields → String → ℕ → Option String → List String → Method
  approve_call deny_call : String → Option String → Option String → Method
  execute :
      (Fields → Result String Fields)
      → String
      → Fields
      → String
      → ℕ
      → Option String
      → List String
      → Method
  add_tool : ToolDefinition → Method

module _ (texts : Texts) where
  check_permission-Extends :
      (tool_name : String) (args : Fields) (id : String) (now : ℕ) (risk : Option String)
      (ps : List String) (l : Layer)
      → Extends l.audit_log (check_permission texts tool_name args id now risk ps l).1.audit_log
  unfolding check_permission log_call
  check_permission-Extends tool_name args id now risk ps l =
      elim (Bool-cases (named_in tool_name l.denylist)) [
        | inl e ↦ rw e (Extends-append l.audit_log _)
        | inr e ↦ elim (Bool-cases (is_listed texts tool_name args id now l.allowlist)) [
          | inr f ↦ rw (e, f) (Extends-append l.audit_log _)
          | inl f ↦ rw (e, f) (prohibited (first_prohibited texts tool_name args ps))
        ]
      ]
    where
      ranked :
          (r : String) (t : Option ToolDefinition) (n m : Option ℕ)
          → Extends l.audit_log (by_rank texts tool_name args id now r t n m l).1.audit_log
      ranked r t none m = Extends-refl l.audit_log
      ranked r t (some n) none = Extends-refl l.audit_log
      ranked r t (some n) (some m) = elim (Bool-cases (leb m n)) [
        | inl e ↦ rw e (Extends-append l.audit_log _)
        | inr e ↦ rw e (Extends-append l.audit_log _)
      ]

      prohibited :
          (q : Option String)
          → Extends l.audit_log (by_prohibition texts tool_name args id now q risk l).1.audit_log
      prohibited (some p) = Extends-append l.audit_log _
      prohibited none =
          let t = get_tool_definition tool_name l in
          ranked (effective_risk risk t) t (rank (effective_risk risk t))
            (rank l.require_approval_above)

  after_run-Extends :
      {A : Type 0} (r : PolicyCheckResult) (tool_name : String) (a : Result String A) (l : Layer)
      → Extends l.audit_log (after_run r tool_name a l).1.audit_log
  after_run-Extends r tool_name (ok a) l = Extends-refl l.audit_log
  after_run-Extends r tool_name (err e) l = mark_error-Extends tool_name l.audit_log

  Outcome-Extends :
      {A : Type 0} (tool_name : String) (args : Fields) (id : String) (now : ℕ)
      (executor : Fields → Result String A) (c : Result Failure PolicyCheckResult × Layer)
      (out : Executed A)
      → Outcome texts tool_name args id now executor c out
      → Extends c.1.audit_log out.1.audit_log
  Outcome-Extends tool_name args id now executor (err e, l) out h = rw h (Extends-refl l.audit_log)
  Outcome-Extends tool_name args id now executor (ok r, l) out (inl (d, h)) =
      rw h (after_run-Extends r tool_name (executor args) l)
  Outcome-Extends tool_name args id now executor (ok r, l) out (inr (d, h)) =
      rw h (Extends-refl l.audit_log)

  unfoldable pub run : Method → Layer → Layer
  unfolding check_permission record_approval record_denial execute_with_permission register_tool
  run (check tool_name args id now risk ps) l =
      (check_permission texts tool_name args id now risk ps l).1
  run (approve_call id by notes) l = (record_approval id by notes l).1
  run (deny_call id by reason) l = (record_denial id by reason l).1
  run (execute executor tool_name args id now risk ps) l =
      (execute_with_permission texts executor tool_name args id now risk ps l).1
  run (add_tool t) l = register_tool t l

  abbrev pub run_all : List Method → Layer → Layer
  run_all [] l = l
  run_all (m ∷ ms) l = run_all ms (run m l)

  run-Extends : (m : Method) (l : Layer) → Extends l.audit_log (run m l).audit_log
  unfolding run record_approval record_denial register_tool
  run-Extends (check tool_name args id now risk ps) l =
      check_permission-Extends tool_name args id now risk ps l
  run-Extends (approve_call id by notes) l =
      settle-Extends _ (λ c. (refl, refl, refl, refl)) id (lookup id l.pending) l
  run-Extends (deny_call id by reason) l =
      settle-Extends _ (λ c. (refl, refl, refl, refl)) id (lookup id l.pending) l
  run-Extends (execute executor tool_name args id now risk ps) l =
      let c = check_permission texts tool_name args id now risk ps l in
      let out = execute_with_permission texts executor tool_name args id now risk ps l in
      Extends-trans l.audit_log c.1.audit_log out.1.audit_log
        (check_permission-Extends tool_name args id now risk ps l)
        (Outcome-Extends tool_name args id now executor c out
          (execute_with_permission-Outcome texts tool_name args id now executor risk ps l))
  run-Extends (add_tool t) l = Extends-refl l.audit_log

  -- Whatever is called, no call goes from the log or changes its place, id, tool, arguments or time.
  pub run_all-Extends :
      (ms : List Method) (l : Layer) → Extends l.audit_log (run_all ms l).audit_log
  run_all-Extends [] l = Extends-refl l.audit_log
  run_all-Extends (m ∷ ms) l =
      Extends-trans l.audit_log (run m l).audit_log (run_all ms (run m l)).audit_log
        (run-Extends m l) (run_all-Extends ms (run m l))
