-- ===== src/Registry/Unlinked.antt =====
-- The steps of `deregister` of rann_agent/orchestration/agent_registry.py: an agent is taken off the list
-- of its parent first.
use rann_agent.Prelude.{
  suc, ℕ, String, ◌≡◌, ◌≢◌, ◌⊎◌, inl, inr, refl, sym, ◌∙◌, Bool, true, false, Option, none, some,
  List, [], ◌∷◌, In, str_eq, eq_iff, if◌then◌else◌, arith, Bool-cases, Option-cases,
}
use rann_agent.Dict.{Dict, lookup, has_key, delete}
use rann_agent.Registry.Types.{AgentInfo, Registry}
use rann_agent.Registry.Methods.{
  returned, waiting, known_parent, change, remove_first, drop_child, unlink, kill_children, finish,
  deregister,
}
use rann_agent.Registry.Family.{child_ids_of, IsFamily, removed_first}
use rann_agent.Registry.Tree.{drop_child-IsFamily, child_ids-drop, delete-IsFamily}

-- The agents when an agent has been taken off its parent's list.
abbrev pub unlinked : String → AgentInfo → Dict AgentInfo → Dict AgentInfo
unlinked k info d = unlink k (known_parent info.parent_id d) d

-- The subprocesses that are left.
abbrev pub processes_left : (String → Bool) → String → List String → List String
processes_left dies k ps = if dies k then remove_first k ps else ps

module _ (dies : String → Bool) where
  -- A call finds the lock held by the one that it is nested in.
  deregister-locked :
      (n : ℕ) (k : String) (r : Registry)
      → r.locked ≡ true
      → deregister dies (suc n) k r ≡ (waiting, r)
  unfolding deregister
  deregister-locked n k r h = rw h refl

  -- Of a free lock and an agent that is there: what is computed, by the children that it has when it is
  -- off its parent's list.
  pub deregister-unlinked :
      (n : ℕ) (k : String) (r : Registry) (info : AgentInfo)
      → r.locked ≡ false
      → lookup k r.agents ≡ some info
      → ((child_ids_of k (unlinked k info r.agents) ≡ [])
          → deregister dies (suc (suc n)) k r ≡ (
            returned true,
            record r {
              agents = delete k (unlinked k info r.agents);
              processes = processes_left dies k r.processes;
              locked = false;
            },
          ))
        × ((child_ids_of k (unlinked k info r.agents) ≢ [])
            → deregister dies (suc (suc n)) k r
              ≡ (waiting, record r { agents = unlinked k info r.agents; locked = true }))
  unfolding deregister kill_children
  deregister-unlinked n k r info free here = (
    λ h. rw (free, here, h) refl,
    λ h. rw (free, here) (waits (child_ids_of k (unlinked k info r.agents)) h),
  )
    where
      waits :
          (cs : List String)
          → cs ≢ []
          → finish k (processes_left dies k r.processes) (
              kill_children
                (deregister dies (suc n))
                cs
                (record r { agents = unlinked k info r.agents; locked = true }))
            ≡ (waiting, record r { agents = unlinked k info r.agents; locked = true })
      waits [] h = absurd (h refl)
      waits (c ∷ cs) h = refl

  -- Of an agent that is not there nothing changes, and the answer is false.
  deregister-absent :
      (n : ℕ) (k : String) (r : Registry)
      → r.locked ≡ false
      → lookup k r.agents ≡ none
      → deregister dies (suc n) k r ≡ (returned false, r)
  unfolding deregister
  deregister-absent n k r free gone = rw (free, gone) refl

  unlinked-IsFamily :
      (k : String) (info : AgentInfo) (d : Dict AgentInfo)
      → IsFamily d
      → IsFamily (unlinked k info d)
  unlinked-IsFamily k info d fam = unlink-IsFamily (known_parent info.parent_id d)
    where
      unlink-IsFamily : (p : Option String) → IsFamily (unlink k p d)
      unlink-IsFamily none = fam
      unlink-IsFamily (some p) = drop_child-IsFamily p k d fam

  -- Nobody lists an agent that has been taken off its parent's list.
  pub unlinked_alone :
      (k : String) (info : AgentInfo) (d : Dict AgentInfo)
      → lookup k d ≡ some info
      → IsFamily d
      → (p : String) → ¬ In k (child_ids_of p (unlinked k info d))
  unfolding has_key
  unlinked_alone k info d here fam p i = elim (Option-cases (known_parent info.parent_id d)) [
    | inl e ↦ unknown e (rw e at i)
    | inr (q, e) ↦ dropped q e (Bool-cases (str_eq q p)) (rw e at i)
  ]
    where
      parent_at : In k (child_ids_of p d) → info.parent_id ≡ some p
      parent_at j = rw here at (fam.names p k j).0

      has_children : In k (child_ids_of p d) → has_key p d ≡ true
      has_children j = elim (Option-cases (lookup p d)) [
        | inl e ↦ absurd (rw e at j)
        | inr (a, e) ↦ rw e refl
      ]

      known : In k (child_ids_of p d) → known_parent info.parent_id d ≡ some p
      known j = rw (parent_at j, has_children j) (ground (arith, eq_iff p "", (fam.names p k j).1))

      unknown : known_parent info.parent_id d ≡ none → In k (child_ids_of p d) → ⊥
      unknown e j = ground (arith, sym (known j) ∙ e)

      dropped :
          (q : String)
          → known_parent info.parent_id d ≡ some q
          → (str_eq q p ≡ true) ⊎ (str_eq q p ≡ false)
          → In k (child_ids_of p (change q (drop_child k) d))
          → ⊥
      dropped q e (inl f) j =
          removed_first k (child_ids_of p d) (fam.once p) (rw (child_ids-drop q k d p, f) at j)
      dropped q e (inr f) j =
          let l = rw (child_ids-drop q k d p, f) at j in
          ground (arith, eq_iff q p, f, sym e ∙ known l)

  -- However a call of deregister ends, it leaves a family.
  pub deregister-IsFamily :
      (n : ℕ) (k : String) (r : Registry)
      → IsFamily r.agents
      → IsFamily (deregister dies (suc (suc n)) k r).1.agents
  deregister-IsFamily n k r fam = elim (Bool-cases r.locked) [
    | inl e ↦ rw (deregister-locked (suc n) k r e) fam
    | inr e ↦ elim (Option-cases (lookup k r.agents)) [
      | inl f ↦ rw (deregister-absent (suc n) k r e f) fam
      | inr (info, f) ↦ after info e f (child_ids_of k (unlinked k info r.agents)) refl
    ]
  ]
    where
      after :
          (info : AgentInfo)
          → r.locked ≡ false
          → lookup k r.agents ≡ some info
          → (cs : List String) → child_ids_of k (unlinked k info r.agents) ≡ cs
          → IsFamily (deregister dies (suc (suc n)) k r).1.agents
      after info e f [] q = rw ((deregister-unlinked n k r info e f).0 q) (
          delete-IsFamily k (unlinked k info r.agents) (unlinked_alone k info r.agents f fam)
            (unlinked-IsFamily k info r.agents fam))
      after info e f (c ∷ cs) q =
          rw ((deregister-unlinked n k r info e f).1 (λ z. ground (arith, sym q ∙ z)))
            (unlinked-IsFamily k info r.agents fam)
