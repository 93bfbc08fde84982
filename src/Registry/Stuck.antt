-- ===== src/Registry/Stuck.antt =====
-- `deregister` of an agent with children, rann_agent/orchestration/agent_registry.py: it calls itself
-- with the lock held, which asyncio.Lock does not let its holder take again.
use rann_agent.Prelude.{
  suc, ℕ, String, ◌≡◌, ◌≢◌, ◌⊎◌, inl, inr, refl, sym, ◌∙◌, Bool, true, false, Option, none, some,
  List, [], ◌∷◌, str_eq, eq_iff, arith, Bool-cases, Option-cases,
}
use rann_agent.Dict.{Dict, lookup}
use rann_agent.Registry.Types.{AgentInfo, Registry}
use rann_agent.Registry.Methods.{waiting, known_parent, change, drop_child, deregister}
use rann_agent.Registry.Family.{child_ids_of}
use rann_agent.Registry.Tree.{child_ids-drop}
use rann_agent.Registry.Unlinked.{unlinked, deregister-unlinked}
use rann_agent.Registry.Reach.{Method, run, run-locked}

abbrev pub run_all : List Method → Registry → Registry
run_all [] r = r
run_all (m ∷ ms) r = run_all ms (run m r)

run_all-locked : (ms : List Method) (r : Registry) → r.locked ≡ true → run_all ms r ≡ r
run_all-locked [] r h = refl
run_all-locked (m ∷ ms) r h = rw (run-locked m r h) (run_all-locked ms r h)

known_parent-named :
    (q : Option String) (d : Dict AgentInfo) (p : String) → known_parent q d ≡ some p → q ≡ some p
known_parent-named none d p h = h
known_parent-named (some q) d p h = ground (arith, h)

-- Taking an agent off the list of another leaves its own list.
child_ids-unlinked :
    (k : String) (info : AgentInfo) (d : Dict AgentInfo)
    → info.parent_id ≢ some k
    → child_ids_of k (unlinked k info d) ≡ child_ids_of k d
child_ids-unlinked k info d other = elim (Option-cases (known_parent info.parent_id d)) [
  | inl e ↦ rw e refl
  | inr (p, e) ↦ rw e (apart p (known_parent-named info.parent_id d p e) (Bool-cases (str_eq p k)))
]
  where
    apart :
        (p : String)
        → info.parent_id ≡ some p
        → (str_eq p k ≡ true) ⊎ (str_eq p k ≡ false)
        → child_ids_of k (change p (drop_child k) d) ≡ child_ids_of k d
    apart p e (inl f) = absurd (other (rw ((eq_iff p k).0 f) at e))
    apart p e (inr f) = rw (child_ids-drop p k d k, f) refl

-- A call of deregister for an agent with children that is not its own parent waits for ever, and the
-- agent keeps its children; whatever is called afterwards changes nothing any more.
pub deregister-stuck :
    (dies : String → Bool) (n : ℕ) (k : String) (r : Registry) (info : AgentInfo)
    → r.locked ≡ false
    → lookup k r.agents ≡ some info
    → info.child_ids ≢ []
    → info.parent_id ≢ some k
    → ((deregister dies (suc (suc n)) k r).0 ≡ waiting)
      × (child_ids_of k (deregister dies (suc (suc n)) k r).1.agents ≡ info.child_ids)
      × ((ms : List Method)
          → run_all ms (deregister dies (suc (suc n)) k r).1
            ≡ (deregister dies (suc (suc n)) k r).1)
deregister-stuck dies n k r info free here children other =
    rw ((deregister-unlinked dies n k r info free here).1 (λ e. children (sym own ∙ e))) (
      refl,
      own,
      λ ms. run_all-locked ms (record r { agents = unlinked k info r.agents; locked = true }) refl,
    )
  where
    own : child_ids_of k (unlinked k info r.agents) ≡ info.child_ids
    own = rw (child_ids-unlinked k info r.agents other, here) refl
