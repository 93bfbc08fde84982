-- ===== src/Approval/Defs.antt =====
-- `ApprovalSystem` of rann_agent/core/approval.py without a storage. The id that `request` draws and the
-- time are arguments.
use rann_agent.Prelude.{
  ℕ, String, Bool, true, false, Option, none, some, List, [], ◌∷◌, str_eq, anyb,
}
use rann_agent.Dict.{Dict, lookup, insert, values}

pub data ApprovalType : Type 0 where
  production_deployment destructive credentials privilege protected_branch external_financial
        security_policy large_deletion :
      ApprovalType

pub data Status : Type 0 where
  pending approved rejected : Status

pub record ApprovalRequest : Type 0 where
  pub request_id : String
  pub approval_type : ApprovalType
  pub description : String
  pub requested_by : String
  pub timestamp : ℕ
  pub status : Status
  pub reviewed_by : Option String
  pub reviewed_at : Option ℕ
  pub rejection_reason : Option String

-- `_pending`
abbrev pub Requests : Type 0
Requests = Dict ApprovalRequest

-- `request`
unfoldable pub request : String → ApprovalType → String → String → ℕ → Requests → Requests
unfolding insert
request request_id type description requested_by now d =
    insert request_id
      (record {
        request_id = request_id;
        approval_type = type;
        description = description;
        requested_by = requested_by;
        timestamp = now;
        status = pending;
        reviewed_by = none;
        reviewed_at = none;
        rejection_reason = none;
      })
      d

abbrev pub review :
    String
    → (ApprovalRequest → ApprovalRequest)
    → Option ApprovalRequest
    → Requests
    → Bool × Requests
review request_id f none d = (false, d)
review request_id f (some q) d = (true, insert request_id (f q) d)

-- `approve`
unfoldable pub approve : String → String → ℕ → Requests → Bool × Requests
unfolding lookup insert
approve request_id reviewed_by now d =
    review request_id
      (λ q. record q { status = approved; reviewed_by = some reviewed_by; reviewed_at = some now })
      (lookup request_id d) d

-- `reject`
unfoldable pub reject : String → String → String → ℕ → Requests → Bool × Requests
unfolding lookup insert
reject request_id reason reviewed_by now d =
    review request_id
      (λ q. record q {
        status = rejected;
        reviewed_by = some reviewed_by;
        reviewed_at = some now;
        rejection_reason = some reason;
      })
      (lookup request_id d) d

-- `requires_approval` of an action in lower case
unfoldable pub requires_approval : String → Bool
requires_approval action =
    anyb (λ a. str_eq a action)
      ("deploy" ∷ "delete" ∷ "rm" ∷ "sudo" ∷ "chmod" ∷ "chown" ∷ "kubectl" ∷ "docker_push"
        ∷ "terraform_destroy" ∷ [])

-- `get_pending`, which gives every request where there is no storage.
unfoldable pub get_pending : Requests → List ApprovalRequest
unfolding values
get_pending d = values d
