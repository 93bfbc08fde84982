-- ===== src/Registry/Removal.antt =====
-- What `deregister` of rann_agent/orchestration/agent_registry.py comes to.
use rann_agent.Prelude.{
  suc, ℕ, String, ◌≡◌, ◌⊎◌, inl, inr, refl, Bool, true, false, Option, none, some, List, [], ◌∷◌,
  In, str_eq, eq_iff, eq_refl, filterb, not, anyb, subst, Bool-cases, Option-cases,
}
use rann_agent.Dict.{Dict, lookup, delete, lookup-delete}
use rann_agent.Registry.Types.{AgentInfo, Registry}
use rann_agent.Registry.Methods.{
  returned, children_of, known_parent, change, remove_first, drop_child, deregister,
}
use rann_agent.Registry.Family.{
  Single, child_ids_of, IsFamily, changed, lookup-change, remove_first-absent,
}
use rann_agent.Registry.Tree.{child_ids-drop}
use rann_agent.Registry.Unlinked.{unlinked, unlinked_alone, deregister-unlinked}

-- An agent whose list of children has `k` no more.
abbrev pub delisted : String → Option AgentInfo → Option AgentInfo
delisted k none = none
delisted k (some a) = some (record a { child_ids = filterb (λ x. not (str_eq x k)) a.child_ids })

filter-absent :
    (k : String) (xs : List String) → ¬ In k xs → filterb (λ x. not (str_eq x k)) xs ≡ xs
filter-absent k [] h = refl
filter-absent k (x ∷ xs) h = elim (Bool-cases (str_eq x k)) [
  | inl e ↦ absurd (h (inl ((eq_iff x k).0 e)))
  | inr e ↦ rw (e, filter-absent k xs (λ i. h (inr i))) refl
]

filter-remove_first :
    (k : String) (xs : List String)
    → Single xs
    → filterb (λ x. not (str_eq x k)) xs ≡ remove_first k xs
unfolding remove_first
filter-remove_first k [] h = refl
filter-remove_first k (x ∷ xs) (h, hs) = elim (Bool-cases (str_eq x k)) [
  | inl e ↦ rw e (filter-absent k xs (subst (λ z. ¬ In z xs) ((eq_iff x k).0 e) h))
  | inr e ↦ rw (e, filter-remove_first k xs hs) refl
]

absent-delisted : (k : String) (x : Option AgentInfo) → (¬ In k (children_of x)) → x ≡ delisted k x
absent-delisted k none h = refl
absent-delisted k (some a) h = rw (filter-absent k a.child_ids h) refl

dropped-delisted :
    (k : String) (x : Option AgentInfo)
    → Single (children_of x)
    → changed (drop_child k) x ≡ delisted k x
dropped-delisted k none h = refl
dropped-delisted k (some a) h = elim (Bool-cases (anyb (λ x. str_eq x k) a.child_ids)) [
  | inl e ↦ rw (e, filter-remove_first k a.child_ids h) refl
  | inr e ↦ rw (e, filter-remove_first k a.child_ids h, remove_first-absent k a.child_ids e) refl
]

-- Every agent is as it was, but for the one that is off the list of its parent.
lookup-unlinked :
    (k : String) (info : AgentInfo) (d : Dict AgentInfo)
    → lookup k d ≡ some info
    → IsFamily d
    → (j : String) → lookup j (unlinked k info d) ≡ delisted k (lookup j d)
lookup-unlinked k info d here fam j = elim (Option-cases (known_parent info.parent_id d)) [
  | inl e ↦ rw e (
      absent-delisted k (lookup j d)
        (λ i. unlinked_alone (λ x. false) k info d here fam j (rw e i)))
  | inr (q, e) ↦ rw e (dropped q e (Bool-cases (str_eq q j)))
]
  where
    dropped :
        (q : String)
        → known_parent info.parent_id d ≡ some q
        → (str_eq q j ≡ true) ⊎ (str_eq q j ≡ false)
        → lookup j (change q (drop_child k) d) ≡ delisted k (lookup j d)
    dropped q e (inl f) =
        rw (lookup-change q j (drop_child k) d, f) (dropped-delisted k (lookup j d) (fam.once j))
    dropped q e (inr f) =
        rw (lookup-change q j (drop_child k) d, f)
          (absent-delisted k (lookup j d) (λ i.
            unlinked_alone (λ x. false) k info d here fam j (rw (e, child_ids-drop q k d j, f) i)))

-- In a family of agents whose lock is free, `deregister` of an agent that is there and has no children
-- answers true, two nested calls being fuel enough, and gives the lock back: the agent is gone,
-- nobody lists it, and every other agent is as it was, its list of children without the removed one.
pub deregister_answer :
    (dies : String → Bool) (n : ℕ) (k : String) (r : Registry) (info : AgentInfo)
    → r.locked ≡ false
    → IsFamily r.agents
    → lookup k r.agents ≡ some info
    → info.child_ids ≡ []
    → ((deregister dies (suc (suc n)) k r).0 ≡ returned true)
      × ((deregister dies (suc (suc n)) k r).1.locked ≡ false)
      × (lookup k (deregister dies (suc (suc n)) k r).1.agents ≡ none)
      × ((p : String) → ¬ In k (child_ids_of p (deregister dies (suc (suc n)) k r).1.agents))
      × ((j : String)
          → str_eq k j ≡ false
          → lookup j (deregister dies (suc (suc n)) k r).1.agents ≡ delisted k (lookup j r.agents))
deregister_answer dies n k r info free fam here childless =
    rw ((deregister-unlinked dies n k r info free here).0 own) (
      refl,
      refl,
      rw (lookup-delete, eq_refl k) refl,
      λ p i. alone p (Bool-cases (str_eq k p)) i,
      λ j e. rw (lookup-delete, e) (lookup-unlinked k info r.agents here fam j),
    )
  where
    own : child_ids_of k (unlinked k info r.agents) ≡ []
    own = rw (lookup-unlinked k info r.agents here fam k, here, childless) refl

    alone :
        (p : String)
        → (str_eq k p ≡ true) ⊎ (str_eq k p ≡ false)
        → ¬ In k (child_ids_of p (delete k (unlinked k info r.agents)))
    alone p (inl e) i = absurd (rw (lookup-delete, e) at i)
    alone p (inr e) i = unlinked_alone dies k info r.agents here fam p (rw (lookup-delete, e) at i)
