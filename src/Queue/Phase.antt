-- ===== src/Queue/Phase.antt =====
-- What a row of the table of rann_agent/storage/queue.py says of its job: it waits, is held, or is over.
use rann_agent.Prelude.{
  ℕ, String, ◌≡◌, ◌⊎◌, refl, ap, ◌∙◌, true, false, Option, none, some, eq_iff, eq_refl, arith,
  Bool-cases, Option-cases, inl, inr, ◌<◌,
}
use rann_agent.Queue.Table.{
  JobStatus, pending, running, completed, failed, cancelled, status_is, worker_is, Row, is_held,
  is_live,
}
use rann_agent.Queue.Methods.{beat, is_stale}

-- A job that is held has its worker and the time of its last heartbeat.
pub data Phase : Type 0 where
  waiting : Phase
  held : Option String → Option ℕ → Phase
  over : JobStatus → Phase

-- Held by a worker; not over; held with a last heartbeat that is older than the cutoff.
abbrev pub IsHeldBy : String → Phase → Type 0
IsHeldBy w p = (h : Option ℕ) × (p ≡ held (some w) h)

abbrev pub IsLive : Phase → Type 0
IsLive p = (p ≡ waiting) ⊎ ((w : Option String) × (h : Option ℕ) × (p ≡ held w h))

abbrev pub IsStale : ℕ → Phase → Type 0
IsStale cutoff p = (w : Option String) × (h : ℕ) × (p ≡ held w (some h)) × (h < cutoff)

abbrev pub phase_as : JobStatus → Option String → Option ℕ → Phase
phase_as pending w h = waiting
phase_as running w h = held w h
phase_as completed w h = over completed
phase_as failed w h = over failed
phase_as cancelled w h = over cancelled

abbrev pub phase : Row → Phase
phase r = phase_as r.status r.worker_id r.heartbeat_at

pub is_pending : (r : Row) → status_is r.status pending ≡ true → phase r ≡ waiting
unfolding status_is
is_pending r h = kept r.status h
  where
    kept :
        (s : JobStatus)
        → status_is s pending ≡ true
        → phase_as s r.worker_id r.heartbeat_at ≡ waiting
    kept pending h = refl
    kept running h = absurd (ground (arith, h))
    kept completed h = absurd (ground (arith, h))
    kept failed h = absurd (ground (arith, h))
    kept cancelled h = absurd (ground (arith, h))

pub is_running :
    (r : Row) → status_is r.status running ≡ true → phase r ≡ held r.worker_id r.heartbeat_at
unfolding status_is
is_running r h = kept r.status h
  where
    kept :
        (s : JobStatus)
        → status_is s running ≡ true
        → phase_as s r.worker_id r.heartbeat_at ≡ held r.worker_id r.heartbeat_at
    kept running h = refl
    kept pending h = absurd (ground (arith, h))
    kept completed h = absurd (ground (arith, h))
    kept failed h = absurd (ground (arith, h))
    kept cancelled h = absurd (ground (arith, h))

-- Of a phase that is held, read back to the columns.
abbrev worker_of : Phase → Option String
worker_of (held w h) = w
worker_of _ = none

abbrev beat_of : Phase → Option ℕ
beat_of (held w h) = h
beat_of _ = none

held_columns :
    (r : Row) (w : Option String) (h : Option ℕ)
    → phase r ≡ held w h
    → (status_is r.status running ≡ true) × (r.worker_id ≡ w) × (r.heartbeat_at ≡ h)
unfolding status_is
held_columns r w h e = read r.status e
  where
    read :
        (s : JobStatus)
        → phase_as s r.worker_id r.heartbeat_at ≡ held w h
        → (status_is s running ≡ true) × (r.worker_id ≡ w) × (r.heartbeat_at ≡ h)
    read running e = (refl, ap worker_of e, ap beat_of e)
    read pending e = absurd (ground (arith, e))
    read completed e = absurd (ground (arith, e))
    read failed e = absurd (ground (arith, e))
    read cancelled e = absurd (ground (arith, e))

waiting_column : (r : Row) → phase r ≡ waiting → status_is r.status pending ≡ true
unfolding status_is
waiting_column r e = read r.status e
  where
    read :
        (s : JobStatus)
        → phase_as s r.worker_id r.heartbeat_at ≡ waiting
        → status_is s pending ≡ true
    read pending e = refl
    read running e = absurd (ground (arith, e))
    read completed e = absurd (ground (arith, e))
    read failed e = absurd (ground (arith, e))
    read cancelled e = absurd (ground (arith, e))

worker_is-some : (w : String) (v : Option String) → worker_is w v ≡ true → v ≡ some w
unfolding worker_is
worker_is-some w none h = absurd (ground (arith, h))
worker_is-some w (some v) h = ap some ((eq_iff v w).0 h)

-- The test of a row that is held, against the phase.
pub held_row :
    (j w : String) (r : Row) → is_held j w r ≡ true → (r.job_id ≡ j) × IsHeldBy w (phase r)
unfolding is_held
held_row j w r h = (
  (eq_iff r.job_id j).0 (ground (arith, h)),
  (
    r.heartbeat_at,
    is_running r (ground (arith, h))
        ∙ ap (λ v. held v r.heartbeat_at) (worker_is-some w r.worker_id (ground (arith, h))),
  ),
)

pub held_beat :
    (j w : String) (now : ℕ) (r : Row)
    → is_held j w r ≡ true
    → phase (beat now r) ≡ held (some w) (some now)
unfolding is_held
held_beat j w now r h =
    is_running (beat now r) (ground (arith, h))
    ∙ ap (λ v. held v (some now)) (worker_is-some w r.worker_id (ground (arith, h)))

pub unheld_row :
    (j w : String) (r : Row) → is_held j w r ≡ false → ¬ ((r.job_id ≡ j) × IsHeldBy w (phase r))
unfolding is_held worker_is
unheld_row j w r n (e, (h, q)) =
    let (s, v, b) = held_columns r (some w) h q in
    ground (arith, rw (s, v, e, eq_refl j, eq_refl w) at n)

pub IsLive-row : (r : Row) → is_live r ≡ true → IsLive (phase r)
unfolding is_live
IsLive-row r h = elim (Bool-cases (status_is r.status pending)) [
  | inl e ↦ inl (is_pending r e)
  | inr e ↦ inr (r.worker_id, r.heartbeat_at, is_running r (ground (arith, h, e)))
]

pub ended_row : (r : Row) → is_live r ≡ false → ¬ IsLive (phase r)
unfolding is_live
ended_row r n (inl e) = let s = waiting_column r e in ground (arith, n, s)
ended_row r n (inr (w, h, e)) = let s = (held_columns r w h e).0 in ground (arith, n, s)

pub IsStale-row : (cutoff : ℕ) (r : Row) → is_stale cutoff r ≡ true → IsStale cutoff (phase r)
unfolding is_stale
IsStale-row cutoff r h = elim (Option-cases r.heartbeat_at) [
  | inl e ↦ absurd (ground (arith, rw e at h))
  | inr (b, e) ↦
      let q = rw e at h in
      (
        r.worker_id,
        b,
        is_running r (ground (arith, h)) ∙ ap (held r.worker_id) e,
        ground (arith, q),
      )
]

pub fresh_row : (cutoff : ℕ) (r : Row) → is_stale cutoff r ≡ false → ¬ IsStale cutoff (phase r)
unfolding is_stale
fresh_row cutoff r n (w, h, e, l) =
    let (s, v, b) = held_columns r w (some h) e in let q = rw (s, b) at n in ground (arith, q, l)
