-- ===== src/Queue/Claim.antt =====
-- About `dequeue` of rann_agent/storage/queue.py, run at once or interleaved.
use rann_agent.Prelude.{
  ℕ, String, ◌≡◌, ◌≢◌, refl, ap, true, false, Option, none, some, List, [], ◌∷◌, str_eq, eq_refl,
  eq_iff, All, In, subst, sym, arith, if◌then◌else◌, ◌&&◌, Bool-cases, Option-cases, inl, inr,
}
use rann_agent.Queue.Table.{pending, status_is, Row, is_held, update, select_pending, worker_is}
use rann_agent.Queue.Methods.{claim, claimed_by, claimed_job, dequeue}
use rann_agent.Queue.First.{Picked, select_pending-none, select_pending-Picked}

-- The row that a worker holds now.
abbrev pub Holds : String → String → List Row → Type 0
Holds job_id worker_id t = (r : Row) × In r t × (is_held job_id worker_id r ≡ true)

claim_test :
    (r row : Row)
    → r ≡ row
    → row.status ≡ pending
    → (str_eq r.job_id row.job_id && status_is r.status pending) ≡ true
unfolding status_is
claim_test r row e p =
    subst (λ (x : Row). (str_eq x.job_id row.job_id && status_is x.status pending) ≡ true) (sym e)
      (rw (eq_refl row.job_id, p) refl)

claimed-is_held :
    (w : String) (now : ℕ) (r row : Row)
    → r ≡ row
    → is_held row.job_id w (claimed_by w now r) ≡ true
unfolding is_held worker_is status_is
claimed-is_held w now r row e =
    subst (λ (x : Row). is_held row.job_id w (claimed_by w now x) ≡ true) (sym e)
      (rw (eq_refl row.job_id, eq_refl w) refl)

claim-Holds :
    (w : String) (now : ℕ) (row : Row) (t : List Row)
    → In row t
    → row.status ≡ pending
    → Holds row.job_id w (claim w now row t)
unfolding claim update
claim-Holds w now row (r ∷ t) (inl e) p = (
  claimed_by w now r,
  inl (ap (λ b. if b then claimed_by w now r else r) (claim_test r row e p)),
  claimed-is_held w now r row e,
)
claim-Holds w now row (r ∷ t) (inr i) p =
    let (x, j, h) = claim-Holds w now row t i p in (x, inr j, h)
claim-Holds w now row [] i p = absurd i

-- What `dequeue` answers on the table `t`.
abbrev pub Answer : String → ℕ → List Row → List Row × Option Row → Type 0
Answer w now t (t', none) = All (λ r. status_is r.status pending ≡ false) t × (t' ≡ t)
Answer w now t (t', some job) =
    (row : Row) × Picked row t × (job ≡ claimed_job w now row) × Holds row.job_id w t'

-- A `dequeue` that nothing interrupts returns no job only if no row is pending, and then changes
-- nothing; else it returns a pending row that comes first, by priority and then by age, and the
-- worker holds that job afterwards.
pub dequeue-Answer : (w : String) (now : ℕ) (t : List Row) → Answer w now t (dequeue w now t)
unfolding dequeue
dequeue-Answer w now t = elim (Option-cases (select_pending t)) [
  | inl e ↦ rw e (select_pending-none t e, refl)
  | inr (row, e) ↦
      let picked = select_pending-Picked t row e in
      rw e (row, picked, refl, claim-Holds w now row t picked.0 picked.1)
]

claim_again :
    (v w : String) (n n' : ℕ) (row : Row) (t : List Row)
    → claim w n' row (claim v n row t) ≡ claim v n row t
unfolding claim update status_is
claim_again v w n n' row [] = refl
claim_again v w n n' row (r ∷ t) = ground (arith, claim_again v w n n' row t)

-- No two rows of the table have the same job: `job_id` is its primary key.
abbrev pub IsUnique : List Row → Type 0
IsUnique [] = Unit
IsUnique (r ∷ t) = All (λ s. str_eq s.job_id r.job_id ≡ false) t × IsUnique t

-- A row of the job `row.job_id` is pending.
abbrev OnlyPending : Row → Row → Type 0
OnlyPending row r = (str_eq r.job_id row.job_id ≡ true) → status_is r.status pending ≡ true

others-OnlyPending :
    (row : Row) (t : List Row)
    → All (λ s. str_eq s.job_id row.job_id ≡ false) t
    → All (OnlyPending row) t
others-OnlyPending row [] h = tt
others-OnlyPending row (r ∷ t) (h, hs) =
    (λ e. absurd (ground (arith, h, e)), others-OnlyPending row t hs)

differ_back : (i j : String) → str_eq i j ≡ false → str_eq j i ≡ false
differ_back i j h = elim (Bool-cases (str_eq j i)) [
  | inl e ↦ absurd (ground (arith, rw (sym ((eq_iff j i).0 e), eq_refl j) at h))
  | inr e ↦ e
]

other_job :
    (r row : Row) (t : List Row)
    → All (λ s. str_eq s.job_id r.job_id ≡ false) t
    → In row t
    → str_eq r.job_id row.job_id ≡ false
other_job r row (s ∷ t) (h, hs) (inl e) =
    differ_back row.job_id r.job_id (subst (λ (x : Row). str_eq x.job_id r.job_id ≡ false) e h)
other_job r row (s ∷ t) (h, hs) (inr i) = other_job r row t hs i
other_job r row [] hs i = absurd i

unique-OnlyPending :
    (row : Row) (t : List Row)
    → IsUnique t
    → In row t
    → status_is row.status pending ≡ true
    → All (OnlyPending row) t
unique-OnlyPending row (r ∷ t) (h, hs) (inl e) p = (
  (λ q. subst (λ (x : Row). status_is x.status pending ≡ true) (sym e) p),
  others-OnlyPending row t (subst (λ (x : Row). All (λ s. str_eq s.job_id x.job_id ≡ false) t) e h),
)
unique-OnlyPending row (r ∷ t) (h, hs) (inr i) p =
    (λ e. absurd (ground (arith, other_job r row t h i, e)), unique-OnlyPending row t hs i p)
unique-OnlyPending row [] hs i p = absurd i

claim-not_held :
    (v w : String) (n : ℕ) (row : Row)
    → str_eq v w ≡ false
    → (t : List Row) → All (OnlyPending row) t
    → All (λ r. is_held row.job_id w r ≡ false) (claim v n row t)
unfolding claim update is_held worker_is status_is
claim-not_held v w n row d [] o = tt
claim-not_held v w n row d (r ∷ t) (o, os) = elim (Bool-cases (str_eq r.job_id row.job_id)) [
  | inl e ↦ let p = o e in rw (e, p, d) (rw e refl, claim-not_held v w n row d t os)
  | inr e ↦ rw e (rw e refl, claim-not_held v w n row d t os)
]

not_same : (v w : String) → v ≢ w → str_eq v w ≡ false
not_same v w d = elim (Bool-cases (str_eq v w)) [
  | inl e ↦ absurd (d ((eq_iff v w).0 e))
  | inr e ↦ e
]

pending_test : (r : Row) → r.status ≡ pending → status_is r.status pending ≡ true
unfolding status_is
pending_test r e = rw e refl

none_held : (j w : String) (t : List Row) → All (λ r. is_held j w r ≡ false) t → ¬ Holds j w t
none_held j w [] h (r, i, e) = i
none_held j w (s ∷ t) (h, hs) (r, inl q, e) =
    absurd (ground (arith, subst (λ (x : Row). is_held j w x ≡ false) q h, e))
none_held j w (s ∷ t) (h, hs) (r, inr i, e) = none_held j w t hs (r, i, e)

-- Where two workers run their `SELECT` before either runs its `UPDATE`, both return the same job as
-- their own, and the `UPDATE` of the second changes nothing: of two workers that differ, on a table
-- whose jobs differ, the first holds the job and the second does not.
pub claim_race :
    (v w : String) (n n' : ℕ) (t : List Row) (row : Row)
    → v ≢ w
    → IsUnique t
    → select_pending t ≡ some row
    → ((claimed_job v n row).job_id ≡ (claimed_job w n' row).job_id)
      × ((claimed_job w n' row).worker_id ≡ some w)
      × (claim w n' row (claim v n row t) ≡ claim v n row t)
      × Holds row.job_id v (claim w n' row (claim v n row t))
      × (¬ Holds row.job_id w (claim w n' row (claim v n row t)))
unfolding claimed_job
claim_race v w n n' t row d u h =
    let picked = select_pending-Picked t row h in
    (
      refl,
      refl,
      claim_again v w n n' row t,
      rw claim_again (claim-Holds v n row t picked.0 picked.1),
      rw claim_again (
          none_held row.job_id w _ (
            claim-not_held v w n row (not_same v w d) t
              (unique-OnlyPending row t u picked.0 (pending_test row picked.1)))),
    )
