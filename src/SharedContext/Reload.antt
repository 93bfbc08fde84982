-- ===== src/SharedContext/Reload.antt =====
-- About `_persist` and `_load_from_disk` of rann_agent/orchestration/shared_context.py.
use rann_agent.Prelude.{
  ◌∙◌, subst, sym, ℕ, String, ◌≡◌, refl, Bool, true, false, Option, none, some, [], ◌∷◌, eq_iff,
  arith, Bool-cases, inl, inr, ap,
}
use rann_agent.Dict.{Dict, lookup, has_key, insert, lookup-insert, Distinct}
use rann_agent.Json.{Fields, field, get_field}
use rann_agent.SharedContext.Vector.{Vector}
use rann_agent.SharedContext.Entry.{
  ContextEntry, is_expired, entry_to_dict, entry_from_dict-entry_to_dict,
}
use rann_agent.SharedContext.Store.{
  Store, live, persist, memory_to_fields, vector_to_fields, load_entries, vector_from_fields,
  new_store,
}

abbrev pick : Option ContextEntry → Option ContextEntry → Option ContextEntry
pick none x = x
pick (some e) x = some e

pick-none : (x : Option ContextEntry) → pick x none ≡ x
pick-none none = refl
pick-none (some e) = refl

vector_from_fields-vector_to_fields : (v : Vector) → vector_from_fields (vector_to_fields v) ≡ v
unfolding vector_from_fields vector_to_fields
vector_from_fields-vector_to_fields [] = refl
vector_from_fields-vector_to_fields ((k, n) ∷ v) =
    ap (λ w. (k, n) ∷ w) (vector_from_fields-vector_to_fields v)

skip_expired :
    (now : ℕ) (j k : String) (e : ContextEntry) (d : Dict ContextEntry) (z : Option ContextEntry)
    → has_key j d ≡ false
    → is_expired now e ≡ true
    → pick (live now (lookup k d)) z ≡ pick (live now (lookup k ((j, e) ∷ d))) z
unfolding lookup has_key
skip_expired now j k e d z h x = ground (arith, eq_iff j k, h, x)

keep_unexpired :
    (now : ℕ) (j k : String) (e : ContextEntry) (d acc : Dict ContextEntry)
    → has_key j d ≡ false
    → is_expired now e ≡ false
    → pick (live now (lookup k d)) (lookup k (insert j e acc))
      ≡ pick (live now (lookup k ((j, e) ∷ d))) (lookup k acc)
unfolding lookup has_key
keep_unexpired now j k e d acc h x = ground (arith, eq_iff j k, h, x, lookup-insert j k e acc)

load_entries-field :
    (now : ℕ) (j : String) (e : ContextEntry) (fs : Fields) (acc : Dict ContextEntry)
    → is_expired now e ≡ false
    → load_entries now (field j (entry_to_dict e) fs) acc ≡ load_entries now fs (insert j e acc)
unfolding load_entries
load_entries-field now j e fs acc x = rw (entry_from_dict-entry_to_dict e, x) refl

-- What the loop over the stored entries comes to.
abbrev Loaded : ℕ → Dict ContextEntry → Dict ContextEntry → Bool × Dict ContextEntry → Type 0
Loaded now d acc (whole, d') =
    (whole ≡ true) × ((k : String) → lookup k d' ≡ pick (live now (lookup k d)) (lookup k acc))

load_entries-Loaded :
    (now : ℕ) (d acc : Dict ContextEntry)
    → Distinct d
    → Loaded now d acc (load_entries now (memory_to_fields now d) acc)
unfolding memory_to_fields
load_entries-Loaded now [] acc h = unfold load_entries lookup in (refl, λ k. refl)
load_entries-Loaded now ((j, e) ∷ d) acc (h, hs) = elim (Bool-cases (is_expired now e)) [
  | inl x ↦
      let (whole, found) = load_entries-Loaded now d acc hs in
      rw x (whole, λ k. found k ∙ skip_expired now j k e d (lookup k acc) h x)
  | inr x ↦
      let (whole, found) = load_entries-Loaded now d (insert j e acc) hs in
      rw x (
        subst (Loaded now ((j, e) ∷ d) acc)
          (sym (load_entries-field now j e (memory_to_fields now d) acc x))
          (whole, λ k. found k ∙ keep_unexpired now j k e d acc h x))
]

-- A store that starts on the file that another has just written finds under each key the entry that the
-- other has there, if it has not expired, and has its version vector.
pub new_store-persist :
    (now default_ttl : ℕ) (agent_id : String) (c : Store)
    → Distinct c.memory
    → ((k : String)
        → lookup k (new_store default_ttl agent_id now (persist now true c).file).memory
          ≡ live now (lookup k c.memory))
      × ((new_store default_ttl agent_id now (persist now true c).file).vv ≡ c.vv)
unfolding new_store persist get_field lookup
new_store-persist now default_ttl agent_id c h =
    let (whole, found) = load_entries-Loaded now c.memory [] h in
    rw whole (
      λ k. found k ∙ pick-none (live now (lookup k c.memory)),
      vector_from_fields-vector_to_fields c.vv,
    )
