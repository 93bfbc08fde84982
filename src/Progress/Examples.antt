-- ===== src/Progress/Examples.antt =====
-- Runs of the progress engine.
use rann_agent.Prelude.{
  ℕ, ◌-◌, String, ◌≡◌, refl, Bool, false, some, List, [], ◌∷◌, length, drop, str_eq, arith,
}
use rann_agent.Dict.{lookup, insert}
use rann_agent.Progress.Defs.{
  Iteration, new_engine, or_zero, record_iteration, count_one, count_in, detect_stall,
  repeated_command, replan, of_action,
}
use rann_agent.Progress.History.{record_all, record_all-Kept}

abbrev mentions : String → String → Bool
mentions w t = str_eq w t

abbrev iteration_of : ℕ → String → Iteration
iteration_of n action = record {
  iteration = n;
  objective = "o";
  action = action;
  observation = "";
  result = "ok";
  progress_delta = record { below_zero = false; size = 500000 };
}

abbrev three : List Iteration
three = iteration_of 1 "ls" ∷ iteration_of 2 "ls" ∷ iteration_of 3 "ls" ∷ []

stalls :
    detect_stall (record_all mentions three (new_engine 100))
    ≡ some (record {
      stall_type = repeated_command;
      iterations_affected = 3;
      recommendation = replan;
      details = of_action "ls" 3;
    })
unfolding detect_stall record_iteration new_engine count_one lookup insert
stalls = refl

record_all-Kept_example :
    ((record_all mentions three (new_engine 2)).iterations ≡ drop (length three - 2) three)
    × ((a : String)
        → or_zero (lookup a (record_all mentions three (new_engine 2)).action_counts)
          ≡ count_in a three)
record_all-Kept_example = record_all-Kept mentions 2 three (omega arith)
