-- ===== src/SharedContext/Sets.antt =====
-- What `set` and `delete` of rann_agent/orchestration/shared_context.py leave of a key, its version, the
-- count of the store and its default age.
use rann_agent.Prelude.{
  is_some, ℕ, ◌+◌, ◌≤◌, String, ◌≡◌, inl, inr, refl, Bool, true, false, Option, none, some, List,
  eq_refl, arith, is_some, ap, ◌∙◌, if◌then◌else◌, Bool-cases, Option-cases,
}
use rann_agent.Dict.{lookup, has_key, lookup-insert, lookup-delete}
use rann_agent.Json.{Json}
use rann_agent.SharedContext.Vector.{count_of, increment}
use rann_agent.SharedContext.Order.{count_of-insert}
use rann_agent.SharedContext.Entry.{ContextEntry, is_expired, expired_at}
use rann_agent.SharedContext.Store.{Store, live, persist, set, version_for, remove, entry_for}

memory-persist : (now : ℕ) (b : Bool) (c : Store) → (persist now b c).memory ≡ c.memory
unfolding persist
memory-persist now true c = refl
memory-persist now false c = refl

vv-persist : (now : ℕ) (b : Bool) (c : Store) → (persist now b c).vv ≡ c.vv
unfolding persist
vv-persist now true c = refl
vv-persist now false c = refl

agent_id-persist : (now : ℕ) (b : Bool) (c : Store) → (persist now b c).agent_id ≡ c.agent_id
unfolding persist
agent_id-persist now true c = refl
agent_id-persist now false c = refl

pub lookup-set :
    (key : String) (value : Json) (ttl : Option ℕ) (tags : Option (List String))
    (owner : Option String) (now : ℕ) (written : Bool) (c : Store)
    → lookup key (set key value ttl tags owner now written c).1.memory
      ≡ some (set key value ttl tags owner now written c).0
unfolding set
lookup-set key value ttl tags owner now written c =
    rw (memory-persist, lookup-insert, eq_refl key) refl

pub value-set :
    (key : String) (value : Json) (ttl : Option ℕ) (tags : Option (List String))
    (owner : Option String) (now : ℕ) (written : Bool) (c : Store)
    → (set key value ttl tags owner now written c).0.value ≡ value
unfolding set
value-set key value ttl tags owner now written c = made (live now (lookup key c.memory))
  where
    made : (x : Option ContextEntry) → (entry_for key value ttl tags owner now x c).0.value ≡ value
    made none = refl
    made (some old) = refl

-- The version that `set` gives.
abbrev pub next_version : ℕ → Option ContextEntry → ℕ
next_version n none = n + 1
next_version n (some old) = old.version + 1

pub version-set :
    (key : String) (value : Json) (ttl : Option ℕ) (tags : Option (List String))
    (owner : Option String) (now : ℕ) (written : Bool) (c : Store)
    → (set key value ttl tags owner now written c).0.version
      ≡ next_version (count_of c.agent_id c.vv) (live now (lookup key c.memory))
unfolding set increment
version-set key value ttl tags owner now written c = made (live now (lookup key c.memory))
  where
    made :
        (x : Option ContextEntry)
        → (entry_for key value ttl tags owner now x c).0.version
          ≡ next_version (count_of c.agent_id c.vv) x
    made none =
        count_of-insert c.agent_id c.agent_id (count_of c.agent_id c.vv + 1) c.vv
        ∙ ap (λ b. if b then count_of c.agent_id c.vv + 1 else count_of c.agent_id c.vv)
            (eq_refl c.agent_id)
    made (some old) = refl

-- An entry that was set without an age of its own is there for the default one of its store.
not_expired :
    (key : String) (value : Json) (now later : ℕ) (written : Bool) (c : Store)
    → later ≤ now + c.default_ttl
    → is_expired later (set key value none none none now written c).0 ≡ false
unfolding set is_expired
not_expired key value now later written c h = made (live now (lookup key c.memory))
  where
    made :
        (x : Option ContextEntry)
        → expired_at later
            (entry_for key value none none none now x c).0.updated_at
            (entry_for key value none none none now x c).0.ttl
          ≡ false
    made none = ground (arith, h)
    made (some old) = ground (arith, h)

pub live-set :
    (key : String) (value : Json) (now later : ℕ) (written : Bool) (c : Store)
    → later ≤ now + c.default_ttl
    → live later (lookup key (set key value none none none now written c).1.memory)
      ≡ some (set key value none none none now written c).0
live-set key value now later written c h =
    rw (lookup-set, not_expired key value now later written c h) refl

pub version_for-set :
    (key : String) (value : Json) (now later : ℕ) (written : Bool) (c : Store)
    → later ≤ now + c.default_ttl
    → version_for key later (set key value none none none now written c).1
      ≡ some (set key value none none none now written c).0.version
unfolding version_for
version_for-set key value now later written c h = rw (live-set key value now later written c h) refl

default_ttl-persist :
    (now : ℕ) (b : Bool) (c : Store) → (persist now b c).default_ttl ≡ c.default_ttl
unfolding persist
default_ttl-persist now true c = refl
default_ttl-persist now false c = refl

pub default_ttl-set :
    (key : String) (value : Json) (now : ℕ) (written : Bool) (c : Store)
    → (set key value none none none now written c).1.default_ttl ≡ c.default_ttl
unfolding set
default_ttl-set key value now written c =
    rw default_ttl-persist (made (live now (lookup key c.memory)))
  where
    made :
        (x : Option ContextEntry)
        → (entry_for key value none none none now x c).1.default_ttl ≡ c.default_ttl
    made none = refl
    made (some old) = refl

pub default_ttl-remove :
    (key : String) (now : ℕ) (written : Bool) (c : Store)
    → (remove key now written c).1.default_ttl ≡ c.default_ttl
unfolding remove
default_ttl-remove key now written c = elim (Bool-cases (has_key key c.memory)) [
  | inl e ↦ rw (e, default_ttl-persist) refl
  | inr e ↦ rw e refl
]

-- The count of a store after a `set`: it grows where the entry is new.
pub count-set :
    (key : String) (value : Json) (now : ℕ) (written : Bool) (c : Store)
    → count_of
        (set key value none none none now written c).1.agent_id
        (set key value none none none now written c).1.vv
      ≡ (if is_some (live now (lookup key c.memory))
          then count_of c.agent_id c.vv
          else count_of c.agent_id c.vv + 1)
unfolding set increment
count-set key value now written c =
    rw (vv-persist, agent_id-persist) (counted (live now (lookup key c.memory)))
  where
    counted :
        (x : Option ContextEntry)
        → count_of
            (entry_for key value none none none now x c).1.agent_id
            (entry_for key value none none none now x c).1.vv
          ≡ (if is_some x then count_of c.agent_id c.vv else count_of c.agent_id c.vv + 1)
    counted none =
        count_of-insert c.agent_id c.agent_id (count_of c.agent_id c.vv + 1) c.vv
        ∙ ap (λ b. if b then count_of c.agent_id c.vv + 1 else count_of c.agent_id c.vv)
            (eq_refl c.agent_id)
    counted (some old) = refl

pub lookup-remove :
    (key : String) (now : ℕ) (written : Bool) (c : Store)
    → lookup key (remove key now written c).1.memory ≡ none
unfolding remove has_key
lookup-remove key now written c = elim (Option-cases (lookup key c.memory)) [
  | inl e ↦ rw e e
  | inr (x, e) ↦ rw (e, memory-persist, lookup-delete, eq_refl key) refl
]

pub count-remove :
    (key : String) (now : ℕ) (written : Bool) (c : Store)
    → count_of (remove key now written c).1.agent_id (remove key now written c).1.vv
      ≡ count_of c.agent_id c.vv
unfolding remove
count-remove key now written c = elim (Bool-cases (has_key key c.memory)) [
  | inl e ↦ rw (e, vv-persist, agent_id-persist) refl
  | inr e ↦ rw e refl
]
