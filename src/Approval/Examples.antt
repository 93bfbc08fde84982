-- ===== src/Approval/Examples.antt =====
-- Runs of the approval system.
use rann_agent.Prelude.{◌≡◌, refl, some, List, [], ◌∷◌}
use rann_agent.Dict.{lookup, insert}
use rann_agent.Approval.Defs.{destructive, approved, request, approve, reject}
use rann_agent.Approval.Decisions.{
  Call, ask, accept, refuse, run, run_all, status_of, after_all, status_of-run_all,
}

-- A request is rejected, and approved all the same.
abbrev calls : List Call
calls =
    ask "r" destructive "rm -rf build" "agent" 0 ∷ refuse "r" "no" "ann" 1 ∷ accept "r" "bob" 2 ∷ []

overruled : status_of "r" (run_all calls []) ≡ some approved
unfolding run_all run request approve reject lookup insert
overruled = refl

status_of-run_all_example :
    status_of "r" (run_all calls []) ≡ after_all "r" calls (status_of "r" [])
status_of-run_all_example = status_of-run_all "r" calls []
