-- ===== src/Budget/Warnings.antt =====
-- About `check_warnings` of rann_agent/core/budget.py over the calls of a run.
use rann_agent.Prelude.{
  ℕ, ◌*◌, ◌≤◌, String, ◌≡◌, refl, true, List, [], ◌∷◌, map, filterb, In, arith, ap,
}
use rann_agent.Budget.Tracker.{
  Budget, Tracker, Readings, LimitStatus, get_limit_status, is_warning, check_warnings,
}
use rann_agent.Budget.Engine.{count_model_call}
use rann_agent.Budget.Account.{Use, model, tool, turn, step_of}

-- Two lists of entries, the second further on than the first.
abbrev Grown : List LimitStatus → List LimitStatus → Type 0
Grown [] [] = Unit
Grown [] (e ∷ es) = ⊥
Grown (d ∷ ds) [] = ⊥
Grown (d ∷ ds) (e ∷ es) =
    (d.key ≡ e.key) × (d.base ≡ e.base) × (d.of_limit ≤ e.of_limit) × Grown ds es

mul_mono_left : (m n k : ℕ) → m ≤ n → m * k ≤ n * k
mul_mono_left m n k h = grind arith

is_warning_mono :
    (b : Budget) (d e : LimitStatus)
    → d.base ≡ e.base
    → d.of_limit ≤ e.of_limit
    → is_warning b d ≡ true
    → is_warning b e ≡ true
unfolding is_warning
is_warning_mono b d e p q h =
    grind
      (arith, mul_mono_left d.of_limit e.of_limit b.warn_den q, ap (λ (n : ℕ). b.warn_num * n) p)

abbrev pub keys_of : List LimitStatus → List String
keys_of = map (λ e. e.key)

filterb_mono :
    (b : Budget) (ds es : List LimitStatus) (k : String)
    → Grown ds es
    → In k (keys_of (filterb (is_warning b) ds))
    → In k (keys_of (filterb (is_warning b) es))
filterb_mono b [] [] k g h = h
filterb_mono b [] (e ∷ es) k g h = elim g [ ]
filterb_mono b (d ∷ ds) [] k g h = elim g [ ]
filterb_mono b (d ∷ ds) (e ∷ es) k g h =
    ground (arith, is_warning_mono b d e, filterb_mono b ds es k)

limit_status-Grown :
    (r r' : Readings) (u : Use) (t : Tracker)
    → r.at_pct ≤ r'.at_pct
    → Grown (get_limit_status r t) (get_limit_status r' (step_of u t))
unfolding get_limit_status count_model_call
limit_status-Grown r r' (model i o c) t h = ground arith
limit_status-Grown r r' tool t h = ground arith
limit_status-Grown r r' turn t h = ground arith

budget_step : (u : Use) (t : Tracker) → (step_of u t).budget ≡ t.budget
unfolding count_model_call
budget_step (model i o c) t = refl
budget_step tool t = refl
budget_step turn t = refl

-- A limit that is warned of is warned of after every further call too.
pub check_warnings-step :
    (r r' : Readings) (u : Use) (t : Tracker) (k : String)
    → r.at_pct ≤ r'.at_pct
    → In k (keys_of (check_warnings r t))
    → In k (keys_of (check_warnings r' (step_of u t)))
unfolding check_warnings
check_warnings-step r r' u t k h w = rw (budget_step u t) (
    filterb_mono t.budget (get_limit_status r t) (get_limit_status r' (step_of u t)) k
      (limit_status-Grown r r' u t h) w)
