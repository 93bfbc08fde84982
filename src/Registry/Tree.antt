-- ===== src/Registry/Tree.antt =====
-- Registration and removal in the tree of agents, rann_agent/orchestration/agent_registry.py.
use rann_agent.Prelude.{
  String, ◌≡◌, ◌≢◌, ◌⊎◌, inl, inr, refl, sym, subst, ◌∙◌, ap, true, false, Option, none, some, [],
  ◌∷◌, ◌++◌, In, str_eq, eq_iff, if◌then◌else◌, arith, Bool-cases, is_some,
}
use rann_agent.Dict.{Dict, lookup, has_key, insert, delete, lookup-insert, lookup-delete}
use rann_agent.Registry.Types.{AgentInfo}
use rann_agent.Registry.Methods.{change, add_child, remove_first, drop_child, children_of}
use rann_agent.Registry.Family.{
  child_ids_of, parent_id_of, IsFamily, changed, lookup-change, parent_id_of-change, In-snoc,
  snoc-Single, In-remove_first, remove_first-Single, child_ids-drop_child,
}

-- An agent that is not there is nobody's child.
pub absent_child :
    (p c : String) (d : Dict AgentInfo) → IsFamily d → lookup c d ≡ none → ¬ In c (child_ids_of p d)
absent_child p c d fam h i = absurd (ground (arith, (rw h at (fam.names p c i).0)))

module _ (k : String) (info : AgentInfo) (d : Dict AgentInfo) (fresh : lookup k d ≡ none) where
  -- An agent without children is added under an id that is free.
  pub insert-IsFamily : info.child_ids ≡ [] → IsFamily d → IsFamily (insert k info d)
  insert-IsFamily empty fam = record {
    names = λ p c i. elim (Bool-cases (str_eq k p)) [
      | inl e ↦ absurd (subst (In c) empty (rw (lookup-insert k p info d, e) at i))
      | inr e ↦ old p c (rw (lookup-insert k p info d, e) at i)
    ];
    once = λ p.
        rw (lookup-insert k p info d)
          (elim (Bool-cases (str_eq k p)) [ inl e ↦ rw (e, empty) tt | inr e ↦ rw e (fam.once p) ]);
  }
    where
      old :
          (p c : String)
          → In c (child_ids_of p d)
          → (parent_id_of c (insert k info d) ≡ some p) × (p ≢ "")
      old p c i = elim (Bool-cases (str_eq k c)) [
        | inl e ↦
            absurd
              (absent_child p c d fam (subst (λ x. lookup x d ≡ none) ((eq_iff k c).0 e) fresh) i)
        | inr e ↦ rw (lookup-insert k c info d, e) (fam.names p c i)
      ]

-- A known agent `k` that names `p` as its parent and is not listed by it comes to be listed.
module _ (p k : String) (d : Dict AgentInfo) (named : parent_id_of k d ≡ some p)
    (proper : p ≢ "") where
  child_ids-add_child :
      (q : String)
      → has_key p d ≡ true
      → child_ids_of q (change p (add_child k) d)
        ≡ (if str_eq p q then child_ids_of q d ++ (k ∷ []) else child_ids_of q d)
  unfolding has_key
  child_ids-add_child q h = rw (lookup-change p q (add_child k) d) (elim (Bool-cases (str_eq p q)) [
    | inl e ↦
        rw e (added (lookup q d) (subst (λ x. is_some (lookup x d) ≡ true) ((eq_iff p q).0 e) h))
    | inr e ↦ rw e refl
  ])
    where
      added :
          (x : Option AgentInfo)
          → is_some x ≡ true
          → children_of (changed (add_child k) x) ≡ children_of x ++ (k ∷ [])
      added none h = absurd (ground (arith, h))
      added (some a) h = refl

  pub add_child-IsFamily :
      has_key p d ≡ true
      → ¬ In k (child_ids_of p d)
      → IsFamily d
      → IsFamily (change p (add_child k) d)
  add_child-IsFamily h new fam = record {
    names = λ q c i. named_by q c (elim (Bool-cases (str_eq p q)) [
      | inl e ↦
          own q c ((eq_iff p q).0 e)
            (In-snoc (child_ids_of q d) k c (rw (child_ids-add_child q h, e) at i))
      | inr e ↦ fam.names q c (rw (child_ids-add_child q h, e) at i)
    ]);
    once = λ q. rw (child_ids-add_child q h) (elim (Bool-cases (str_eq p q)) [
      | inl e ↦ rw e (
          snoc-Single (child_ids_of q d) k
            (λ i. new (subst (λ x. In k (child_ids_of x d)) (sym ((eq_iff p q).0 e)) i))
            (fam.once q))
      | inr e ↦ rw e (fam.once q)
    ]);
  }
    where
      named_by :
          (q c : String)
          → (parent_id_of c d ≡ some q) × (q ≢ "")
          → (parent_id_of c (change p (add_child k) d) ≡ some q) × (q ≢ "")
      named_by q c (e, n) = (parent_id_of-change p c (add_child k) d (λ a. refl) ∙ e, n)

      own :
          (q c : String)
          → p ≡ q
          → In c (child_ids_of q d) ⊎ (k ≡ c)
          → (parent_id_of c d ≡ some q) × (q ≢ "")
      own q c e (inl i) = fam.names q c i
      own q c e (inr f) = (
        subst (λ x. parent_id_of x d ≡ some q) f (named ∙ ap some e),
        subst (λ x. x ≢ "") e proper,
      )

-- Of a child that is dropped from a list.
module _ (p k : String) (d : Dict AgentInfo) where
  pub child_ids-drop :
      (q : String)
      → child_ids_of q (change p (drop_child k) d)
        ≡ (if str_eq p q then remove_first k (child_ids_of q d) else child_ids_of q d)
  unfolding remove_first
  child_ids-drop q =
      rw (lookup-change p q (drop_child k) d)
        (elim (Bool-cases (str_eq p q)) [ inl e ↦ rw e (dropped (lookup q d)) | inr e ↦ rw e refl ])
    where
      dropped :
          (x : Option AgentInfo)
          → children_of (changed (drop_child k) x) ≡ remove_first k (children_of x)
      dropped none = refl
      dropped (some a) = child_ids-drop_child k a

  pub drop_child-IsFamily : IsFamily d → IsFamily (change p (drop_child k) d)
  drop_child-IsFamily fam = record {
    names = λ q c i. named_by q c (listed q c (Bool-cases (str_eq p q)) i);
    once = λ q. rw (child_ids-drop q) (elim (Bool-cases (str_eq p q)) [
      | inl e ↦ rw e (remove_first-Single k (child_ids_of q d) (fam.once q))
      | inr e ↦ rw e (fam.once q)
    ]);
  }
    where
      listed :
          (q c : String)
          → (str_eq p q ≡ true) ⊎ (str_eq p q ≡ false)
          → In c (child_ids_of q (change p (drop_child k) d))
          → In c (child_ids_of q d)
      listed q c (inl e) i = In-remove_first k c (child_ids_of q d) (rw (child_ids-drop q, e) at i)
      listed q c (inr e) i = rw (child_ids-drop q, e) at i

      kept : (a : AgentInfo) → (drop_child k a).parent_id ≡ a.parent_id
      kept a = ground arith

      named_by :
          (q c : String)
          → In c (child_ids_of q d)
          → (parent_id_of c (change p (drop_child k) d) ≡ some q) × (q ≢ "")
      named_by q c i =
          (parent_id_of-change p c (drop_child k) d kept ∙ (fam.names q c i).0, (fam.names q c i).1)

-- An agent that has no children and is listed by nobody can be deleted.
pub delete-IsFamily :
    (k : String) (d : Dict AgentInfo)
    → ((p : String) → ¬ In k (child_ids_of p d))
    → IsFamily d
    → IsFamily (delete k d)
delete-IsFamily k d alone fam = record {
  names = λ p c i. elim (Bool-cases (str_eq k p)) [
    | inl e ↦ absurd (rw (lookup-delete k p d, e) at i)
    | inr e ↦ old p c (rw (lookup-delete k p d, e) at i)
  ];
  once = λ p.
      rw (lookup-delete k p d)
        (elim (Bool-cases (str_eq k p)) [ inl e ↦ rw e tt | inr e ↦ rw e (fam.once p) ]);
}
  where
    old :
        (p c : String) → In c (child_ids_of p d) → (parent_id_of c (delete k d) ≡ some p) × (p ≢ "")
    old p c i = elim (Bool-cases (str_eq k c)) [
      | inl e ↦ absurd (alone p (subst (λ x. In x (child_ids_of p d)) (sym ((eq_iff k c).0 e)) i))
      | inr e ↦ rw (lookup-delete k c d, e) (fam.names p c i)
    ]
