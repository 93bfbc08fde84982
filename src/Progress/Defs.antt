-- ===== src/Progress/Defs.antt =====
-- `ProgressEngine` of rann_agent/planning/progress.py. A change of progress is its sign and its size in
-- millionths.
use rann_agent.Prelude.{
  ℕ, ◌+◌, ◌-◌, String, Bool, true, false, ◌&&◌, ◌||◌, Option, none, some, List, [], ◌∷◌, ◌++◌,
  length, drop, map, str_eq, allb, filterb, ltb, leb, if◌then◌else◌,
}
use rann_agent.Dict.{Dict, lookup, insert}

pub data Sign : Type 0 where
  negative zero_sign positive : Sign

pub record Delta : Type 0 where
  pub below_zero : Bool
  pub size : ℕ

pub record Iteration : Type 0 where
  pub iteration : ℕ
  pub objective : String
  pub action : String
  pub observation : String
  pub result : String
  pub progress_delta : Delta

pub data StallType : Type 0 where
  repeated_command zero_progress oscillation repeated_error : StallType

pub data Recommendation : Type 0 where
  retry replan escalate stop : Recommendation

-- `details` has the action and its count, or the recent changes.
pub data Details : Type 0 where
  of_action : String → ℕ → Details
  of_deltas : List Delta → Details

pub record StallReport : Type 0 where
  pub stall_type : StallType
  pub iterations_affected : ℕ
  pub recommendation : Recommendation
  pub details : Details

pub record Engine : Type 0 where
  pub iterations : List Iteration
  pub max_history : ℕ
  pub action_counts : Dict ℕ
  pub error_counts : Dict ℕ
  pub file_edits : Dict ℕ

unfoldable pub new_engine : ℕ → Engine
new_engine max_history = record {
  iterations = [];
  max_history = max_history;
  action_counts = [];
  error_counts = [];
  file_edits = [];
}

abbrev pub or_zero : Option ℕ → ℕ
or_zero none = 0
or_zero (some n) = n

-- `counts[k] = counts.get(k, 0) + 1`
unfoldable pub count_one : String → Dict ℕ → Dict ℕ
unfolding lookup insert
count_one k d = insert k (or_zero (lookup k d) + 1) d

-- `xs[-n:]`, where `[-0:]` is the whole list
abbrev pub newest : {A : Type 0} → ℕ → List A → List A
newest n xs = if leb 1 n then drop (length xs - n) xs else xs

-- `mentions word text` is whether the text has the word in it, in lower case.
module _ (mentions : String → String → Bool) where
  -- `record`
  unfoldable pub record_iteration : Iteration → Engine → Engine
  unfolding count_one
  record_iteration i e =
      let all = e.iterations ++ (i ∷ []) in
      record e {
        iterations = if ltb e.max_history (length all) then newest e.max_history all else all;
        action_counts = count_one i.action e.action_counts;
        error_counts =
            if mentions "error" i.result || mentions "fail" i.result
            then count_one i.action e.error_counts
            else e.error_counts;
        file_edits =
            if mentions "edit" i.action || mentions "write" i.action
            then count_one i.action e.file_edits
            else e.file_edits;
      }

abbrev pub sign_of : Delta → Sign
sign_of d = if leb 1 d.size then (if d.below_zero then negative else positive) else zero_sign

abbrev opposite : Sign → Sign → Bool
opposite negative positive = true
opposite positive negative = true
opposite zero_sign zero_sign = true
opposite _ _ = false

-- Each sign is the negation of the one before it.
abbrev alternate : Sign → List Sign → Bool
alternate s [] = true
alternate s (t ∷ ts) = opposite s t && alternate t ts

abbrev starts_moving : List Sign → Bool
starts_moving [] = false
starts_moving (zero_sign ∷ ts) = false
starts_moving (s ∷ ts) = alternate s ts

-- `recent_actions.count(action)`
unfoldable pub count_in : String → List Iteration → ℕ
count_in action is = length (filterb (λ i. str_eq i.action action) is)

-- The first action of which there are three calls, three of them recent.
abbrev or_report : Bool → StallReport → Option StallReport → Option StallReport
or_report true r rest = some r
or_report false r rest = rest

unfoldable pub repeated_action : Dict ℕ → List Iteration → Option StallReport
unfolding count_in
repeated_action [] recent = none
repeated_action ((action, n) ∷ d) recent =
    or_report (leb 3 n && leb 3 (count_in action recent))
      (record {
        stall_type = repeated_command;
        iterations_affected = n;
        recommendation = replan;
        details = of_action action n;
      })
      (repeated_action d recent)

unfoldable pub repeated_failure : Dict ℕ → Option StallReport
repeated_failure [] = none
repeated_failure ((action, n) ∷ d) =
    or_report (leb 3 n)
      (record {
        stall_type = repeated_error;
        iterations_affected = n;
        recommendation = stop;
        details = of_action action n;
      })
      (repeated_failure d)

abbrev deltas : List Iteration → List Delta
deltas is = map (λ i. i.progress_delta) is

abbrev or_else : Option StallReport → Option StallReport → Option StallReport
or_else none s = s
or_else (some r) s = some r

-- `detect_stall`
unfoldable pub detect_stall : Engine → Option StallReport
unfolding repeated_action repeated_failure
detect_stall e =
    let recent = newest 5 e.iterations in
    if ltb (length e.iterations) 3
    then none
    else or_else (repeated_action e.action_counts recent) (
        if allb (λ d. ltb d.size 100000) (deltas recent)
        then some (record {
          stall_type = zero_progress;
          iterations_affected = length recent;
          recommendation = escalate;
          details = of_deltas (deltas recent);
        })
        else if leb 4 (length recent) && starts_moving (map sign_of (deltas recent))
        then some (record {
          stall_type = oscillation;
          iterations_affected = length recent;
          recommendation = stop;
          details = of_deltas (deltas recent);
        })
        else repeated_failure e.error_counts)
