-- ===== src/Queue/Owner.antt =====
-- About workers that do not hold a job, and `cleanup_stale`, of rann_agent/storage/queue.py.
use rann_agent.Prelude.{
  ℕ, ◌+◌, ◌-◌, String, ◌≡◌, refl, Bool, true, false, Option, List, [], ◌∷◌, All, arith,
}
use rann_agent.Queue.Table.{pending, status_is, Row, is_held, update, rowcount}
use rann_agent.Queue.Methods.{heartbeat, complete, fail, cleanup_stale, is_stale}

update-none :
    (test : Row → Bool) (change : Row → Row) (t : List Row)
    → All (λ r. test r ≡ false) t
    → (update test change t ≡ t) × (rowcount test t ≡ 0)
unfolding update rowcount
update-none test change [] h = (refl, refl)
update-none test change (r ∷ t) (h, hs) =
    let (a, b) = update-none test change t hs in (rw (h, a), rw (h, b) refl)

-- A worker that holds no row of the job changes nothing: `heartbeat` and `complete` answer false, and
-- `fail` answers true all the same.
pub not_held_answers :
    (j w error : String) (retry : Bool) (result : Option String) (now : ℕ) (t : List Row)
    → All (λ r. is_held j w r ≡ false) t
    → (heartbeat j w now t ≡ (t, false))
      × (complete j w result now t ≡ (t, false))
      × (fail j w error retry now t ≡ (t, true))
unfolding heartbeat complete fail
not_held_answers j w error retry result now t h = (
  rw ((update-none (is_held j w) _ t h).0, (update-none (is_held j w) (λ r. r) t h).1) refl,
  rw ((update-none (is_held j w) _ t h).0, (update-none (is_held j w) (λ r. r) t h).1) refl,
  failing retry,
)
  where
    failing : (b : Bool) → fail j w error b now t ≡ (t, true)
    failing true = rw ((update-none (is_held j w) _ t h).0) refl
    failing false = rw ((update-none (is_held j w) _ t h).0) refl

unfoldable pub count_pending : List Row → ℕ
count_pending t = rowcount (λ r. status_is r.status pending) t

-- After `cleanup_stale` no row is stale by its cutoff, and the answer is by how many rows the pending
-- ones have become more.
pub cleanup_stale-fresh :
    (now stale : ℕ) (t : List Row)
    → All (λ r. is_stale (now - stale) r ≡ false) (cleanup_stale now stale t).0
      × (count_pending (cleanup_stale now stale t).0
          ≡ count_pending t + (cleanup_stale now stale t).1)
unfolding cleanup_stale update rowcount count_pending is_stale status_is
cleanup_stale-fresh now stale [] = (tt, refl)
cleanup_stale-fresh now stale (r ∷ t) = ground (arith, cleanup_stale-fresh now stale t)
