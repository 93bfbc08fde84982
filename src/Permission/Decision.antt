-- ===== src/Permission/Decision.antt =====
-- What `check_permission` of rann_agent/core/tool_permission.py decides, and what it logs.
use rann_agent.Prelude.{
  ℕ, ◌≤◌, ◌<◌, String, ◌≡◌, ◌≢◌, ◌⊎◌, inl, inr, refl, true, false, Option, none, some, List, [],
  ◌∷◌, ◌++◌, In, str_eq, eq_iff, leb, leb→le, arith, Bool-cases,
}
use rann_agent.Exec.{Result, ok, err}
use rann_agent.Json.{Fields}
use rann_agent.Permission.Types.{
  CallStatus, pending, allowed, denied, Reason, ToolCall, PermissionDecision, approval_required,
  PolicyCheckResult, Layer,
}
use rann_agent.Permission.Layer.{
  Texts, Failure, named_in, rank, effective_risk, new_call, first_prohibited, get_tool_definition,
  deny, by_rank, by_prohibition, is_listed, check_permission, log_call,
}

leb-lt : (a b : ℕ) → leb a b ≡ false → b < a
leb-lt a b h = ground arith

module _ (texts : Texts) (tool_name : String) (args : Fields) (call_id : String) (now : ℕ)
    (risk_level : Option String) (ps : List String) (l : Layer) where
  -- The action is prohibited: it has one of the patterns in its name or in its arguments.
  abbrev pub IsProhibited : List String → Type 0
  IsProhibited [] = ⊥
  IsProhibited (p ∷ ps) =
      ((texts.within (texts.lower p) (texts.lower tool_name) ≡ true)
        ⊎ (texts.within (texts.lower p) (texts.lower (texts.shown args)) ≡ true))
      ⊎ IsProhibited ps

  -- What rules the call out.
  abbrev pub IsForbidden : Type 0
  IsForbidden =
      In tool_name l.denylist
      ⊎ ((l.allowlist ≢ []) × (¬ In tool_name l.allowlist))
      ⊎ IsProhibited ps

  -- The risk that the call is taken to have.
  abbrev pub risk : String
  risk = effective_risk risk_level (get_tool_definition tool_name l)

  -- A call was logged with this status, and the decision is this one.
  abbrev pub Decided :
      PermissionDecision → CallStatus → Result Failure PolicyCheckResult × Layer → Type 0
  Decided d s out =
      (res : PolicyCheckResult) × (c : ToolCall) × (out.0 ≡ ok res)
      × (res.decision ≡ d)
      × (out.1.audit_log ≡ l.audit_log ++ (c ∷ []))
      × (c ≡ new_call call_id tool_name args now s c.denial_reason)

  abbrev pub Verdict : Result Failure PolicyCheckResult × Layer → Type 0
  Verdict out =
      (IsForbidden × Decided denied denied out)
      ⊎ ((¬ IsForbidden)
          × (((n : ℕ) × (m : ℕ) × (rank risk ≡ some n)
                × (rank l.require_approval_above ≡ some m)
                × (m ≤ n)
                × Decided approval_required pending out)
              ⊎ ((n : ℕ) × (m : ℕ) × (rank risk ≡ some n)
                  × (rank l.require_approval_above ≡ some m)
                  × (n < m)
                  × Decided allowed allowed out)
              ⊎ (((rank risk ≡ none) ⊎ (rank l.require_approval_above ≡ none))
                  × (out.1 ≡ l)
                  × (e : Failure) × (out.0 ≡ err e))))

  In-named_in : (xs : List String) → named_in tool_name xs ≡ true → In tool_name xs
  In-named_in [] h = absurd (ground (arith, h))
  In-named_in (x ∷ xs) h = elim (Bool-cases (str_eq x tool_name)) [
    | inl e ↦ inl ((eq_iff x tool_name).0 e)
    | inr e ↦ inr (In-named_in xs (rw e at h))
  ]

  named_in-In : (xs : List String) → In tool_name xs → named_in tool_name xs ≡ true
  named_in-In (x ∷ xs) (inl e) = rw ((eq_iff x tool_name).1 e) refl
  named_in-In (x ∷ xs) (inr i) = ground (arith, named_in-In xs i)
  named_in-In [] i = absurd i

  not_named : (xs : List String) → named_in tool_name xs ≡ false → ¬ In tool_name xs
  not_named xs h i = absurd (ground (arith, named_in-In xs i, h))

  listed :
      (xs : List String)
      → is_listed texts tool_name args call_id now xs ≡ true
      → ¬ ((xs ≢ []) × (¬ In tool_name xs))
  listed [] h (n, m) = n refl
  listed (x ∷ xs) h (n, m) = m (In-named_in (x ∷ xs) h)

  not_listed :
      (xs : List String)
      → is_listed texts tool_name args call_id now xs ≡ false
      → (xs ≢ []) × (¬ In tool_name xs)
  not_listed [] h = absurd (ground (arith, h))
  not_listed (x ∷ xs) h = (λ e. ground (arith, e), not_named (x ∷ xs) h)

  IsProhibited-found :
      (qs : List String) (p : String)
      → first_prohibited texts tool_name args qs ≡ some p
      → IsProhibited qs
  unfolding first_prohibited
  IsProhibited-found [] p h = ground (arith, h)
  IsProhibited-found (q ∷ qs) p h =
      elim (Bool-cases (texts.within (texts.lower q) (texts.lower tool_name))) [
        | inl e ↦ inl (inl e)
        | inr e ↦
            elim (Bool-cases (texts.within (texts.lower q) (texts.lower (texts.shown args)))) [
              | inl f ↦ inl (inr f)
              | inr f ↦ inr (IsProhibited-found qs p (rw (e, f) at h))
            ]
      ]

  none-IsProhibited :
      (qs : List String) → first_prohibited texts tool_name args qs ≡ none → ¬ IsProhibited qs
  unfolding first_prohibited
  none-IsProhibited [] h i = i
  none-IsProhibited (q ∷ qs) h (inl (inl e)) = ground (arith, (rw e at h))
  none-IsProhibited (q ∷ qs) h (inl (inr f)) =
      elim (Bool-cases (texts.within (texts.lower q) (texts.lower tool_name))) [
        | inl e ↦ ground (arith, (rw e at h))
        | inr e ↦ ground (arith, (rw (e, f) at h))
      ]
  none-IsProhibited (q ∷ qs) h (inr i) =
      elim (Bool-cases (texts.within (texts.lower q) (texts.lower tool_name))) [
        | inl e ↦ ground (arith, (rw e at h))
        | inr e ↦
            elim (Bool-cases (texts.within (texts.lower q) (texts.lower (texts.shown args)))) [
              | inl f ↦ ground (arith, (rw (e, f) at h))
              | inr f ↦ none-IsProhibited qs (rw (e, f) at h) i
            ]
      ]

  denied-Decided :
      (r : Reason) (matched : Option String)
      → Decided denied denied (deny texts tool_name args call_id now r matched l)
  unfolding log_call
  denied-Decided r matched =
      (_, new_call call_id tool_name args now denied (some r), refl, refl, refl, refl)

  -- What is left when nothing forbids the call.
  by_rank-Verdict :
      (¬ IsForbidden)
      → (n m : Option ℕ) → rank risk ≡ n
      → rank l.require_approval_above ≡ m
      → Verdict
          (by_rank texts tool_name args call_id now risk (get_tool_definition tool_name l) n m l)
  unfolding log_call
  by_rank-Verdict free none m e f = inr (free, inr (inr (inl e, refl, _, refl)))
  by_rank-Verdict free (some n) none e f = inr (free, inr (inr (inr f, refl, _, refl)))
  by_rank-Verdict free (some n) (some m) e f = elim (Bool-cases (leb m n)) [
    | inl q ↦ rw q (
        inr (
          free,
          inl (
            n,
            m,
            e,
            f,
            leb→le m n q,
            (_, new_call call_id tool_name args now pending none, refl, refl, refl, refl),
          ),
        ))
    | inr q ↦ rw q (
        inr (
          free,
          inr (
              inl (
                n,
                m,
                e,
                f,
                leb-lt m n q,
                (_, new_call call_id tool_name args now allowed none, refl, refl, refl, refl),
              )),
        ))
  ]

  by_prohibition-Verdict :
      (¬ In tool_name l.denylist)
      → (¬ ((l.allowlist ≢ []) × (¬ In tool_name l.allowlist)))
      → (q : Option String) → first_prohibited texts tool_name args ps ≡ q
      → Verdict (by_prohibition texts tool_name args call_id now q risk_level l)
  by_prohibition-Verdict a b (some p) e =
      inl (inr (inr (IsProhibited-found ps p e)), denied-Decided _ _)
  by_prohibition-Verdict a b none e =
      by_rank-Verdict
        (λ f. elim f [ inl i ↦ a i | inr (inl i) ↦ b i | inr (inr i) ↦ none-IsProhibited ps e i ])
        (rank risk) (rank l.require_approval_above) refl refl

  -- What check_permission comes to: a tool on the denylist, off an allowlist that is not empty, or with a
  -- prohibited pattern in its name or arguments is denied; of any other, approval is asked for if its
  -- risk is at least the one of the layer, and it is allowed if its risk is below; where one of the two
  -- risks is unknown it raises and changes nothing. Each answer appends one call to the log, denied,
  -- pending or allowed as the answer is.
  pub check_permission-Verdict :
      Verdict (check_permission texts tool_name args call_id now risk_level ps l)
  unfolding check_permission
  check_permission-Verdict = elim (Bool-cases (named_in tool_name l.denylist)) [
    | inl e ↦ rw e (inl (inl (In-named_in l.denylist e), denied-Decided _ _))
    | inr e ↦ elim (Bool-cases (is_listed texts tool_name args call_id now l.allowlist)) [
      | inr f ↦ rw (e, f) (inl (inr (inl (not_listed l.allowlist f)), denied-Decided _ _))
      | inl f ↦
          rw (e, f)
            (by_prohibition-Verdict (not_named l.denylist e) (listed l.allowlist f)
              (first_prohibited texts tool_name args ps) refl)
    ]
  ]
