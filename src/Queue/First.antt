-- ===== src/Queue/First.antt =====
-- Which row the `SELECT` of `dequeue` in rann_agent/storage/queue.py finds.
use rann_agent.Prelude.{
  ◌≡◌, ◌≤◌, ◌<◌, ◌⊎◌, refl, true, false, Option, none, some, List, [], ◌∷◌, All, In, subst, arith,
  Bool-cases, Option-cases, inl, inr,
}
use rann_agent.Queue.Table.{pending, status_is, Row, select_pending, precedes}

-- No pending row of the table has a higher priority, or the same and an earlier time.
abbrev pub IsFirst : Row → List Row → Type 0
IsFirst x t =
    All
      (λ r.
        (status_is r.status pending ≡ false)
        ⊎ (r.priority < x.priority)
        ⊎ ((r.priority ≡ x.priority) × (x.created_at ≤ r.created_at)))
      t

pub select_pending-none :
    (t : List Row) → select_pending t ≡ none → All (λ r. status_is r.status pending ≡ false) t
unfolding select_pending
select_pending-none [] h = tt
select_pending-none (r ∷ t) h = ground (arith, select_pending-none t)

later :
    (b r : Row)
    → precedes b r ≡ true
    → (status_is r.status pending ≡ false)
      ⊎ (r.priority < b.priority)
      ⊎ ((r.priority ≡ b.priority) × (b.created_at ≤ r.created_at))
unfolding precedes
later b r q = ground arith

earlier :
    (b r : Row)
    → precedes b r ≡ false
    → (b.priority < r.priority) ⊎ ((b.priority ≡ r.priority) × (r.created_at ≤ b.created_at))
unfolding precedes
earlier b r q = ground arith

-- What is first among rows stays so for a row that is no later in the order.
IsFirst-mono :
    (b r : Row) (t : List Row)
    → (b.priority < r.priority) ⊎ ((b.priority ≡ r.priority) × (r.created_at ≤ b.created_at))
    → IsFirst b t
    → IsFirst r t
IsFirst-mono b r [] o h = tt
IsFirst-mono b r (x ∷ t) o (h, hs) = (ground arith, IsFirst-mono b r t o hs)

IsFirst-none :
    (x : Row) (t : List Row) → All (λ r. status_is r.status pending ≡ false) t → IsFirst x t
IsFirst-none x [] h = tt
IsFirst-none x (r ∷ t) (h, hs) = (inl h, IsFirst-none x t hs)

abbrev pub Picked : Row → List Row → Type 0
Picked x t = In x t × (x.status ≡ pending) × IsFirst x t

row_of : (r x : Row) → ◌≡◌ {A = Option Row} (some r) (some x) → r ≡ x
row_of r x h = cc

pending_of : (r : Row) → status_is r.status pending ≡ true → r.status ≡ pending
unfolding status_is
pending_of r h = ground arith

pub select_pending-Picked : (t : List Row) (x : Row) → select_pending t ≡ some x → Picked x t
unfolding select_pending
select_pending-Picked [] x h = cc
select_pending-Picked (r ∷ t) x h = elim (Bool-cases (status_is r.status pending)) [
  | inr np ↦ let (i, s, f) = select_pending-Picked t x (rw np at h) in (inr i, s, (inl np, f))
  | inl p ↦ elim (Option-cases (select_pending t)) [
    | inl e ↦
        subst (λ y. Picked y (r ∷ t)) (row_of r x (rw (p, e) at h))
          (
            inl refl,
            pending_of r p,
            (inr (inr (refl, omega arith)), IsFirst-none r t (select_pending-none t e)),
          )
    | inr (b, e) ↦
        let (i, s, f) = select_pending-Picked t b e in
        elim (Bool-cases (precedes b r)) [
          | inl q ↦
              subst (λ y. Picked y (r ∷ t)) (row_of b x (rw (p, e, q) at h))
                (inr i, s, (later b r q, f))
          | inr q ↦
              subst (λ y. Picked y (r ∷ t)) (row_of r x (rw (p, e, q) at h))
                (
                  inl refl,
                  pending_of r p,
                  (inr (inr (refl, omega arith)), IsFirst-mono b r t (earlier b r q) f),
                )
        ]
  ]
]
