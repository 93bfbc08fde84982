-- ===== src/Registry/Reach.antt =====
-- The registries that come about by calls of `AgentRegistry`, rann_agent/orchestration/agent_registry.py.
use rann_agent.Prelude.{
  suc, ℕ, String, ◌≡◌, inl, inr, refl, ◌∙◌, Bool, true, Option, none, some, List, [], ◌∷◌, In,
  str_eq, eq_iff, eq_refl, arith, Bool-cases, Option-cases,
}
use rann_agent.Dict.{Dict, lookup, has_key, insert, lookup-insert}
use rann_agent.Json.{Fields}
use rann_agent.Registry.Types.{AgentStatus, AgentCapability, AgentInfo, Registry, new_registry}
use rann_agent.Registry.Methods.{
  known_parent, link, new_info, register_with_id, deregister, changing, update_status, heartbeat,
  set_task, increment_completed, increment_failed, add_token_usage,
}
use rann_agent.Registry.Queries.{agents_of, get, get_children, get_parent}
use rann_agent.Registry.Family.{child_ids_of, parent_id_of, IsFamily, change-IsFamily}
use rann_agent.Registry.Tree.{insert-IsFamily, add_child-IsFamily, absent_child}
use rann_agent.Registry.Unlinked.{deregister-IsFamily}

-- A call of a method that changes the registry. The id of `register` is one that it draws.
pub data Method : Type 0 where
  register : String → String → Option String → String → List AgentCapability → Fields → ℕ → Method
  remove : (String → Bool) → ℕ → String → Method
  update : String → AgentStatus → Method
  beat : String → ℕ → Method
  assign : String → Option String → Method
  complete fail : String → Method
  spend : String → ℕ → Method

unfoldable pub run : Method → Registry → Registry
unfolding register_with_id deregister update_status heartbeat set_task increment_completed
    increment_failed add_token_usage
run (register id name parent role capabilities metadata now) r =
    (register_with_id id name parent role capabilities metadata now r).1
run (remove dies n id) r = (deregister dies (suc (suc n)) id r).1
run (update id status) r = (update_status id status r).1
run (beat id now) r = (heartbeat id now r).1
run (assign id task) r = (set_task id task r).1
run (complete id) r = (increment_completed id r).1
run (fail id) r = (increment_failed id r).1
run (spend id tokens) r = (add_token_usage id tokens r).1

-- An agent is registered under an id that no agent has.
abbrev pub IsFresh : Method → Registry → Type 0
IsFresh (register id _ _ _ _ _ _) r = lookup id r.agents ≡ none
IsFresh _ r = Unit

pub data Reaches (ttl : ℕ) : Registry → Type 0 where
  start : Reaches ttl (new_registry ttl)
  next : (m : Method) (r : Registry) → Reaches ttl r → IsFresh m r → Reaches ttl (run m r)

register-IsFamily :
    (k name : String) (parent : Option String) (role : String) (cs : List AgentCapability)
    (metadata : Fields) (now : ℕ) (r : Registry)
    → lookup k r.agents ≡ none
    → IsFamily r.agents
    → IsFamily (register_with_id k name parent role cs metadata now r).1.agents
unfolding register_with_id
register-IsFamily k name parent role cs metadata now r fresh fam = elim (Bool-cases r.locked) [
  | inl e ↦ rw e fam
  | inr e ↦ rw e (linked parent refl)
]
  where
    info : AgentInfo
    info = new_info k name parent role cs metadata now

    d : Dict AgentInfo
    d = insert k info r.agents

    known : IsFamily d
    known = insert-IsFamily k info r.agents fresh refl fam

    named : parent_id_of k d ≡ parent
    named = rw (lookup-insert k k info r.agents, eq_refl k) refl

    childless : (p : String) → ¬ In k (child_ids_of p d)
    childless p i = elim (Bool-cases (str_eq k p)) [
      | inl e ↦ absurd (rw (lookup-insert k p info r.agents, e) at i)
      | inr e ↦ absent_child p k r.agents fam fresh (rw (lookup-insert k p info r.agents, e) at i)
    ]

    linked : (q : Option String) → parent ≡ q → IsFamily (link k (known_parent q d) d)
    linked none e = known
    linked (some p) e = elim (Bool-cases (str_eq p "")) [
      | inl f ↦ rw f known
      | inr f ↦ elim (Bool-cases (has_key p d)) [
        | inl h ↦
            rw (f, h)
              (add_child-IsFamily p k d (named ∙ e) (λ z. ground (arith, eq_iff p "", f, z)) h
                (childless p) known)
        | inr h ↦ rw (f, h) known
      ]
    ]

changing-IsFamily :
    (k : String) (f : AgentInfo → AgentInfo) (r : Registry)
    → ((a : AgentInfo) → (f a).parent_id ≡ a.parent_id)
    → ((a : AgentInfo) → (f a).child_ids ≡ a.child_ids)
    → IsFamily r.agents
    → IsFamily (changing k f r).1.agents
changing-IsFamily k f r h l fam = elim (Bool-cases r.locked) [
  | inl e ↦ rw e fam
  | inr e ↦ elim (Bool-cases (has_key k r.agents)) [
    | inl q ↦ rw (e, q) (change-IsFamily k f r.agents h l fam)
    | inr q ↦ rw (e, q) fam
  ]
]

run-IsFamily :
    (m : Method) (r : Registry) → IsFresh m r → IsFamily r.agents → IsFamily (run m r).agents
unfolding run update_status heartbeat set_task increment_completed increment_failed add_token_usage
run-IsFamily (register id name parent role cs metadata now) r fresh fam =
    register-IsFamily id name parent role cs metadata now r fresh fam
run-IsFamily (remove dies n id) r fresh fam = deregister-IsFamily dies n id r fam
run-IsFamily (update id status) r fresh fam = changing-IsFamily id _ r (λ a. refl) (λ a. refl) fam
run-IsFamily (beat id now) r fresh fam = changing-IsFamily id _ r (λ a. refl) (λ a. refl) fam
run-IsFamily (assign id task) r fresh fam = changing-IsFamily id _ r (λ a. refl) (λ a. refl) fam
run-IsFamily (complete id) r fresh fam = changing-IsFamily id _ r (λ a. refl) (λ a. refl) fam
run-IsFamily (fail id) r fresh fam = changing-IsFamily id _ r (λ a. refl) (λ a. refl) fam
run-IsFamily (spend id tokens) r fresh fam = changing-IsFamily id _ r (λ a. refl) (λ a. refl) fam

-- In every registry that comes about by its methods, agents being registered under free ids, each
-- listed child is registered and names the agent that lists it, and no list has a child twice.
pub reach-IsFamily : (ttl : ℕ) (r : Registry) → Reaches ttl r → IsFamily r.agents
unfolding new_registry lookup
reach-IsFamily ttl r start = record { names = λ p c i. absurd i; once = λ p. tt }
reach-IsFamily ttl _ (next m r h fresh) = run-IsFamily m r fresh (reach-IsFamily ttl r h)

-- The list has the agent of each of these ids in its place, and no others.
abbrev pub Listed : Registry → List String → List AgentInfo → Type 0
Listed r [] [] = Unit
Listed r (c ∷ cs) (b ∷ bs) = (get c r ≡ some b) × Listed r cs bs
Listed r _ _ = ⊥

agents_of-Listed :
    (cs : List String) (r : Registry)
    → ((c : String) → In c cs → (a : AgentInfo) × (lookup c r.agents ≡ some a))
    → Listed r cs (agents_of cs r.agents)
unfolding agents_of get
agents_of-Listed [] r h = tt
agents_of-Listed (c ∷ cs) r h =
    let (a, e) = h c (inl refl) in rw e (e, agents_of-Listed cs r (λ x i. h x (inr i)))

-- In every registry that comes about by its methods, get_children of an agent is the registered agents
-- of its child ids, each in its place and none left out, and get_parent of each of them is that agent.
pub get_parent-children :
    (ttl : ℕ) (r : Registry)
    → Reaches ttl r
    → (k : String) (a : AgentInfo) → get k r ≡ some a
    → Listed r a.child_ids (get_children k r)
      × ((c : String) → In c a.child_ids → get_parent c r ≡ some a)
unfolding get get_children get_parent
get_parent-children ttl r reached k a here = (
  rw here (agents_of-Listed a.child_ids r (λ c i. there c (listed c i))),
  λ c i. up c (listed c i),
)
  where
    fam : IsFamily r.agents
    fam = reach-IsFamily ttl r reached

    listed : (c : String) → In c a.child_ids → parent_id_of c r.agents ≡ some k
    listed c i = (fam.names k c (rw here i)).0

    there :
        (c : String)
        → parent_id_of c r.agents ≡ some k
        → (b : AgentInfo) × (lookup c r.agents ≡ some b)
    there c e = elim (Option-cases (lookup c r.agents)) [
      | inl f ↦ absurd (ground (arith, (rw f at e)))
      | inr found ↦ found
    ]

    up : (c : String) → parent_id_of c r.agents ≡ some k → get_parent c r ≡ some a
    up c e = let (b, f) = there c e in let q = rw f at e in rw (f, q) here

-- Once a call waits for ever, so does every further one, and nothing changes any more.
pub run-locked : (m : Method) (r : Registry) → r.locked ≡ true → run m r ≡ r
unfolding run register_with_id deregister update_status heartbeat set_task increment_completed
    increment_failed add_token_usage
run-locked (register id name parent role cs metadata now) r h = rw h refl
run-locked (remove dies n id) r h = rw h refl
run-locked (update id status) r h = rw h refl
run-locked (beat id now) r h = rw h refl
run-locked (assign id task) r h = rw h refl
run-locked (complete id) r h = rw h refl
run-locked (fail id) r h = rw h refl
run-locked (spend id tokens) r h = rw h refl
