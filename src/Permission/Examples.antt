-- ===== src/Permission/Examples.antt =====
-- Runs of the permission layer, and its theorems at concrete layers.
use rann_agent.Prelude.{String, ◌≡◌, refl, none, List, [], ◌∷◌, str_eq}
use rann_agent.Exec.{Result, ok}
use rann_agent.Dict.{insert}
use rann_agent.Json.{Fields, end}
use rann_agent.Permission.Types.{Layer, new_layer, by_name}
use rann_agent.Permission.Layer.{Texts, check_permission, execute_with_permission}
use rann_agent.Permission.Decision.{Verdict, check_permission-Verdict}
use rann_agent.Permission.Execution.{Outcome, execute_with_permission-Outcome}
use rann_agent.Permission.Log.{Method, approve_call, execute, run, run_all}

-- Texts without capitals, of which one is in another only where it is the other.
abbrev plain : Texts
plain = record { lower = λ s. s; within = λ x y. str_eq x y; shown = λ fs. "{}" }

abbrev fresh : Layer
fresh = new_layer [] ("curl" ∷ []) "high"

abbrev returns : Fields → Result String Fields
returns fs = ok fs

-- A shell command waits for approval, and still does when the first call of it was approved.
abbrev history : List Method
history = execute returns "terminal" end "c1" 0 none [] ∷ approve_call "c1" none none ∷ []

asks_again :
    (check_permission plain "terminal" end "c2" 1 none [] (run_all plain history fresh)).1.pending
    ≡ (("c1", 0) ∷ ("c2", 1) ∷ [])
unfolding check_permission run new_layer by_name insert
asks_again = refl

check_permission-Verdict_example :
    Verdict plain "terminal" end "c1" 0 none
      ("rm" ∷ [])
      fresh
      (check_permission plain "terminal" end "c1" 0 none ("rm" ∷ []) fresh)
check_permission-Verdict_example =
    check_permission-Verdict plain "terminal" end "c1" 0 none ("rm" ∷ []) fresh

execute_with_permission-Outcome_example :
    Outcome plain "terminal" end "c2" 1 returns
      (check_permission plain "terminal" end "c2" 1 none [] (run_all plain history fresh))
      (execute_with_permission plain returns "terminal" end "c2" 1 none []
        (run_all plain history fresh))
execute_with_permission-Outcome_example =
    execute_with_permission-Outcome plain "terminal" end "c2" 1 returns none []
      (run_all plain history fresh)
