-- ===== src/Approval/Decisions.antt =====
-- What a request comes to over any calls of `ApprovalSystem`, rann_agent/core/approval.py.
use rann_agent.Prelude.{
  ℕ, String, ◌≡◌, refl, ◌∙◌, false, Option, none, some, List, [], ◌∷◌, str_eq, eq_iff, eq_refl, inl,
  inr, if◌then◌else◌, Bool-cases,
}
use rann_agent.Dict.{lookup, lookup-insert}
use rann_agent.Approval.Defs.{
  ApprovalType, Status, pending, approved, rejected, ApprovalRequest, Requests, request, review,
  approve, reject,
}

pub data Call : Type 0 where
  ask : String → ApprovalType → String → String → ℕ → Call
  accept : String → String → ℕ → Call
  refuse : String → String → String → ℕ → Call

unfoldable pub run : Call → Requests → Requests
unfolding request
run (ask id type description by now) d = request id type description by now d
run (accept id by now) d = (approve id by now d).1
run (refuse id reason by now) d = (reject id reason by now d).1

unfoldable pub run_all : List Call → Requests → Requests
run_all [] d = d
run_all (c ∷ cs) d = run_all cs (run c d)

abbrev pub status_in : Option ApprovalRequest → Option Status
status_in none = none
status_in (some q) = some q.status

abbrev pub status_of : String → Requests → Option Status
status_of id d = status_in (lookup id d)

-- A decision on a request that was made: it replaces whatever was decided before.
abbrev decided : Status → Option Status → Option Status
decided s none = none
decided s (some old) = some s

-- The status of the request of an id, by the calls alone.
abbrev pub after : String → Call → Option Status → Option Status
after id (ask k type description by now) s = if str_eq k id then some pending else s
after id (accept k by now) s = if str_eq k id then decided approved s else s
after id (refuse k reason by now) s = if str_eq k id then decided rejected s else s

abbrev pub after_all : String → List Call → Option Status → Option Status
after_all id [] s = s
after_all id (c ∷ cs) s = after_all id cs (after id c s)

status_of-review :
    (id k : String) (f : ApprovalRequest → ApprovalRequest) (s : Status)
    → ((q : ApprovalRequest) → (f q).status ≡ s)
    → (d : Requests)
    → status_of id (review k f (lookup k d) d).1
      ≡ (if str_eq k id then decided s (status_of id d) else status_of id d)
status_of-review id k f s h d = elim (Bool-cases (str_eq k id)) [
  | inl e ↦ rw (e, (eq_iff k id).0 e) (same (lookup id d) refl)
  | inr e ↦ rw e (other e (lookup k d))
]
  where
    same :
        (x : Option ApprovalRequest)
        → lookup id d ≡ x
        → status_of id (review id f x d).1 ≡ decided s (status_in x)
    same none e = rw e refl
    same (some q) e = rw (lookup-insert id id (f q) d, eq_refl id, h q) refl

    other :
        str_eq k id ≡ false
        → (x : Option ApprovalRequest) → status_of id (review k f x d).1 ≡ status_of id d
    other e none = refl
    other e (some q) = rw (lookup-insert k id (f q) d, e) refl

status_of-run :
    (id : String) (c : Call) (d : Requests) → status_of id (run c d) ≡ after id c (status_of id d)
unfolding run request approve reject
status_of-run id (ask k type description by now) d =
    rw (lookup-insert k id _ d)
      (elim (Bool-cases (str_eq k id)) [ inl e ↦ rw e refl | inr e ↦ rw e refl ])
status_of-run id (accept k by now) d = status_of-review id k _ approved (λ q. refl) d
status_of-run id (refuse k reason by now) d = status_of-review id k _ rejected (λ q. refl) d

-- The status of a request is that of the last call for its id, whatever was decided before: a request
-- is pending when it is made, and each approval and each rejection replaces the decision there is, also
-- one of the other kind; an id that was never asked for has none.
pub status_of-run_all :
    (id : String) (cs : List Call) (d : Requests)
    → status_of id (run_all cs d) ≡ after_all id cs (status_of id d)
unfolding run_all
status_of-run_all id [] d = refl
status_of-run_all id (c ∷ cs) d = status_of-run_all id cs (run c d) ∙ rw (status_of-run id c d) refl
