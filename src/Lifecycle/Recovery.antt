-- ===== src/Lifecycle/Recovery.antt =====
-- About `attempt_recovery` and `check_budget` of rann_agent/core/lifecycle.py.
use rann_agent.Prelude.{
  length, ℕ, String, ◌≡◌, refl, ap, Bool, true, false, some, List, [], ◌∷◌, ◌++◌, if◌then◌else◌,
  Bool-cases, inl, inr,
}
use rann_agent.Exec.{Result, ok, err}
use rann_agent.Json.{IsoFormat, str, num, field, end}
use rann_agent.Budget.Tracker.{Tracker, Readings, is_exhausted, get_limit_status}
use rann_agent.Events.Types.{recovery_started, started}
use rann_agent.Lifecycle.Defs.{Lifecycle, Exception, budget_exceeded, emit_created}
use rann_agent.Lifecycle.Methods.{
  Strategy, callback_raises, recovered, try_strategies, attempt_recovery, check_budget,
}

-- On a run whose budget was started, `check_budget` raises the limits exactly when one is reached,
-- and changes nothing.
pub check_budget_answer :
    (iso : IsoFormat) (text : Exception → String) (now : ℕ) (r : Readings) (l : Lifecycle)
    (t : Tracker)
    → l.engine.tracker ≡ some t
    → check_budget iso text now r l
      ≡ ((if is_exhausted now t then err (budget_exceeded (get_limit_status r t)) else ok tt), l)
unfolding check_budget
check_budget_answer iso text now r l t h = elim (Bool-cases (is_exhausted now t)) [
  | inl b ↦ simp (h, b)
  | inr b ↦ simp (h, b)
]

-- `fails` says when the recovery callback raises.
module _ (iso : IsoFormat) (text : Exception → String) (fails : String → Lifecycle → Bool) (now : ℕ)
    (e : Exception) where
  -- Every strategy of the list is tried, from `l` on, and each declines, raises, or succeeds with a
  -- callback that raises; `l'` is what they leave.
  pub data Fail : List (Strategy iso text) → Lifecycle → Lifecycle → Type 0 where
    none_left : {l : Lifecycle} → Fail [] l l
    declines :
        {s : Strategy iso text} {ss : List (Strategy iso text)} {l l' l'' : Lifecycle}
        → s.attempt e l ≡ (ok false, l')
        → Fail ss l' l''
        → Fail (s ∷ ss) l l''
    raises :
        {s : Strategy iso text} {ss : List (Strategy iso text)} {l l' l'' : Lifecycle}
        {f : Exception}
        → s.attempt e l ≡ (err f, l')
        → Fail ss l' l''
        → Fail (s ∷ ss) l l''
    unheard :
        {s : Strategy iso text} {ss : List (Strategy iso text)} {l l' l'' : Lifecycle}
        → s.attempt e l ≡ (ok true, l')
        → callback_raises iso text fails s (recovered iso text s now l') ≡ true
        → Fail ss (recovered iso text s now l') l''
        → Fail (s ∷ ss) l l''

  -- Some strategy succeeds and its callback does not raise, those before it fail, and those behind it
  -- are not tried.
  pub record Recovers (ss : List (Strategy iso text)) (l l' : Lifecycle) : Type 0 where
    pub before : List (Strategy iso text)
    pub winner : Strategy iso text
    pub after : List (Strategy iso text)
    pub split : ss ≡ before ++ winner ∷ after
    pub then_at : Lifecycle
    pub left : Lifecycle
    pub failed : Fail before l then_at
    pub won : winner.attempt e then_at ≡ (ok true, left)
    pub heard : callback_raises iso text fails winner (recovered iso text winner now left) ≡ false
    pub result : l' ≡ recovered iso text winner now left

  -- What the loop says, read off its answer.
  abbrev pub Outcome : List (Strategy iso text) → Lifecycle → Bool × Lifecycle → Type 0
  Outcome ss l (true, l') = Recovers ss l l'
  Outcome ss l (false, l') = Fail ss l l'

  Outcome-cons :
      (s : Strategy iso text) (ss : List (Strategy iso text)) (l l' : Lifecycle)
      (more : (b : List (Strategy iso text)) (x : Lifecycle) → Fail b l' x → Fail (s ∷ b) l x)
      (z : Bool × Lifecycle)
      → Outcome ss l' z
      → Outcome (s ∷ ss) l z
  Outcome-cons s ss l l' more (true, y) o = record {
    before = s ∷ o.before;
    winner = o.winner;
    after = o.after;
    split = ap (λ q. s ∷ q) o.split;
    then_at = o.then_at;
    left = o.left;
    failed = more o.before o.then_at o.failed;
    won = o.won;
    heard = o.heard;
    result = o.result;
  }
  Outcome-cons s ss l l' more (false, y) o = more ss y o

  try_strategies-Outcome :
      (ss : List (Strategy iso text)) (l : Lifecycle)
      → Outcome ss l (try_strategies iso text fails now e ss l)
  unfolding try_strategies
  try_strategies-Outcome [] l = none_left
  try_strategies-Outcome (s ∷ ss) l = next (s.attempt e l) refl (λ l'. try_strategies-Outcome ss l')
    where
      next :
          (z : Result Exception Bool × Lifecycle)
          → s.attempt e l ≡ z
          → ((l' : Lifecycle) → Outcome ss l' (try_strategies iso text fails now e ss l'))
          → Outcome (s ∷ ss) l (try_strategies iso text fails now e (s ∷ ss) l)
      next (ok true, l') h ih =
          let x = recovered iso text s now l' in
          elim (Bool-cases (callback_raises iso text fails s x)) [
            | inl c ↦ rw (h, c) (Outcome-cons s ss l x (λ b y o. unheard h c o) _ (ih x))
            | inr c ↦
                rw (h, c)
                  (record {
                    before = [];
                    winner = s;
                    after = ss;
                    split = refl;
                    then_at = l;
                    left = l';
                    failed = none_left;
                    won = h;
                    heard = c;
                    result = refl;
                  })
          ]
      next (ok false, l') h ih = rw h (Outcome-cons s ss l l' (λ b x o. declines h o) _ (ih l'))
      next (err f, l') h ih = rw h (Outcome-cons s ss l l' (λ b x o. raises h o) _ (ih l'))

  -- After the event of its start, `attempt_recovery` answers true exactly as the first strategy that
  -- succeeds with a recovery callback that is not set or does not raise, and runs none behind it; those
  -- before it declined, raised, or succeeded with a callback that raised. It answers false after each
  -- of them did one of these. What each strategy and its event changed is kept.
  pub attempt_recovery-Outcome :
      (ss : List (Strategy iso text)) (l : Lifecycle)
      → Outcome ss
          (emit_created recovery_started started
            (field "error" (str (text e)) (field "strategy_count" (num (length ss)) end))
            now
            l)
          (attempt_recovery iso text fails now e ss l)
  unfolding attempt_recovery
  attempt_recovery-Outcome ss l = try_strategies-Outcome ss _
