-- ===== src/Events/Counts.antt =====
-- About the counters of an emitter of rann_agent/core/events.py and the events that it keeps.
use rann_agent.Prelude.{
  ℕ, ◌+◌, String, ◌≡◌, refl, Bool, true, none, some, List, [], ◌∷◌, ◌++◌, str_eq, eq_iff, eq_refl,
  filterb, length, arith, if◌then◌else◌,
}
use rann_agent.Dict.{Dict, lookup, lookup-insert}
use rann_agent.Events.Types.{
  EventType, type_value, type_eq, started, success, failure, skipped, status_eq,
}
use rann_agent.Events.Event.{Event}
use rann_agent.Events.Emitter.{
  Emitter, new_emitter, or_zero, count_one, emit, get_events, get_summary,
}

-- Events are kept, and the counter of each type is the number of the kept events of that type.
pub record IsCounted (e : Emitter) : Type 0 where
  pub stores : e.store_events ≡ true
  pub counted :
      (k : EventType)
      → or_zero (lookup (type_value k) e.event_counts) ≡ length (get_events (some k) none none e)

length-filterb-snoc :
    (p : Event → Bool) (es : List Event) (x : Event)
    → length (filterb p (es ++ x ∷ [])) ≡ length (filterb p es) + (if p x then 1 else 0)
length-filterb-snoc p [] x = ground arith
length-filterb-snoc p (e ∷ es) x = ground (arith, length-filterb-snoc p es x)

pub count_one_lem :
    (j k : String) (d : Dict ℕ)
    → or_zero (lookup k (count_one j d)) ≡ or_zero (lookup k d) + (if str_eq j k then 1 else 0)
unfolding count_one
count_one_lem j k d = ground (arith, lookup-insert j k (or_zero (lookup j d) + 1) d, eq_iff j k)

emit_counted :
    (event : Event) (e : Emitter) (k : EventType)
    → e.store_events ≡ true
    → or_zero (lookup (type_value k) e.event_counts) ≡ length (get_events (some k) none none e)
    → or_zero (lookup (type_value k) (emit event e).event_counts)
      ≡ length (get_events (some k) none none (emit event e))
unfolding emit get_events type_eq
emit_counted event e k s h = rw (s) (
    omega (
      arith,
      h,
      count_one_lem (type_value event.event_type) (type_value k) e.event_counts,
      length-filterb-snoc (λ x. type_eq x.event_type k) e.events
          (record event { run_id = e.run_id }),
    ))

emit-IsCounted : (event : Event) (e : Emitter) → IsCounted e → IsCounted (emit event e)
unfolding emit
emit-IsCounted event e h = record {
  stores = h.stores;
  counted = λ k. emit_counted event e k h.stores (h.counted k);
}

unfoldable pub emit_all : List Event → Emitter → Emitter
emit_all [] e = e
emit_all (x ∷ xs) e = emit_all xs (emit x e)

emit_all-IsCounted : (xs : List Event) (e : Emitter) → IsCounted e → IsCounted (emit_all xs e)
unfolding emit_all
emit_all-IsCounted [] e h = h
emit_all-IsCounted (x ∷ xs) e h = emit_all-IsCounted xs (emit x e) (emit-IsCounted x e h)

new-IsCounted : (run_id : String) → IsCounted (new_emitter run_id true)
unfolding new_emitter get_events lookup
new-IsCounted run_id = record { stores = refl; counted = λ k. refl }

-- On an emitter that keeps its events, whatever is emitted, the counter of each type is the number
-- of the kept events of that type, as `get_events` finds them.
pub emit_all-counted :
    (run_id : String) (xs : List Event) (k : EventType)
    → let e = emit_all xs (new_emitter run_id true) in
      or_zero (lookup (type_value k) e.event_counts) ≡ length (get_events (some k) none none e)
emit_all-counted run_id xs k = (emit_all-IsCounted xs _ (new-IsCounted run_id)).counted k

one_status :
    (es : List Event)
    → length es
      ≡ length (filterb (λ e. status_eq e.status success) es)
        + length (filterb (λ e. status_eq e.status failure) es)
        + length (filterb (λ e. status_eq e.status started) es)
        + length (filterb (λ e. status_eq e.status skipped) es)
unfolding status_eq
one_status [] = omega arith
one_status (e ∷ es) = ground (arith, one_status es)

-- The four status counts of a summary add up to its number of events.
pub get_summary_total :
    (e : Emitter)
    → (get_summary e).total_events
      ≡ (get_summary e).success
        + (get_summary e).failure
        + (get_summary e).started
        + (get_summary e).skipped
unfolding get_summary get_events
get_summary_total e = one_status e.events

pub count_one_self :
    (k : String) (d : Dict ℕ) → or_zero (lookup k (count_one k d)) ≡ or_zero (lookup k d) + 1
count_one_self k d = rw (eq_refl k) at (count_one_lem k k d)
