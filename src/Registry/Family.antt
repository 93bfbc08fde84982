-- ===== src/Registry/Family.antt =====
-- About the tree of agents of rann_agent/orchestration/agent_registry.py: what its methods do to the
-- parents and the children.
use rann_agent.Prelude.{
  String, ◌≡◌, ◌≢◌, ◌⊎◌, inl, inr, refl, sym, subst, ◌∙◌, false, Option, none, some, List, [], ◌∷◌,
  ◌++◌, In, anyb, str_eq, eq_iff, if◌then◌else◌, arith, Bool-cases,
}
use rann_agent.Dict.{Dict, lookup}
use rann_agent.Registry.Types.{AgentInfo}
use rann_agent.Registry.Methods.{change, remove_first, drop_child, children_of}

-- No name stands twice.
abbrev pub Single : List String → Type 0
Single [] = Unit
Single (x ∷ xs) = (¬ In x xs) × Single xs

abbrev pub child_ids_of : String → Dict AgentInfo → List String
child_ids_of p d = children_of (lookup p d)

abbrev pub parent_in : Option AgentInfo → Option String
parent_in none = none
parent_in (some a) = a.parent_id

abbrev pub parent_id_of : String → Dict AgentInfo → Option String
parent_id_of c d = parent_in (lookup c d)

-- Each listed child is there and names the agent that lists it, and is listed once.
pub record IsFamily (d : Dict AgentInfo) : Type 0 where
  pub names : (p c : String) → In c (child_ids_of p d) → (parent_id_of c d ≡ some p) × (p ≢ "")
  pub once : (p : String) → Single (child_ids_of p d)

abbrev pub changed : (AgentInfo → AgentInfo) → Option AgentInfo → Option AgentInfo
changed f none = none
changed f (some a) = some (f a)

pub lookup-change :
    (k j : String) (f : AgentInfo → AgentInfo) (d : Dict AgentInfo)
    → lookup j (change k f d) ≡ (if str_eq k j then changed f (lookup j d) else lookup j d)
unfolding lookup change
lookup-change k j f [] = ground arith
lookup-change k j f ((i, a) ∷ d) =
    ground (arith, eq_iff k j, eq_iff i k, eq_iff i j, lookup-change k j f d)

-- A change that leaves the parent of an agent leaves every parent.
pub parent_id_of-change :
    (k c : String) (f : AgentInfo → AgentInfo) (d : Dict AgentInfo)
    → ((a : AgentInfo) → (f a).parent_id ≡ a.parent_id)
    → parent_id_of c (change k f d) ≡ parent_id_of c d
parent_id_of-change k c f d h =
    rw (lookup-change k c f d)
      (elim (Bool-cases (str_eq k c)) [ inl e ↦ rw e (same (lookup c d)) | inr e ↦ rw e refl ])
  where
    same : (x : Option AgentInfo) → parent_in (changed f x) ≡ parent_in x
    same none = refl
    same (some a) = h a

pub change-IsFamily :
    (k : String) (f : AgentInfo → AgentInfo) (d : Dict AgentInfo)
    → ((a : AgentInfo) → (f a).parent_id ≡ a.parent_id)
    → ((a : AgentInfo) → (f a).child_ids ≡ a.child_ids)
    → IsFamily d
    → IsFamily (change k f d)
change-IsFamily k f d h l fam = record {
  names = λ p c i. (
    parent_id_of-change k c f d h ∙ (fam.names p c (subst (In c) (same p) i)).0,
    (fam.names p c (subst (In c) (same p) i)).1,
  );
  once = λ p. subst Single (sym (same p)) (fam.once p);
}
  where
    kept : (x : Option AgentInfo) → children_of (changed f x) ≡ children_of x
    kept none = refl
    kept (some a) = l a

    same : (p : String) → child_ids_of p (change k f d) ≡ child_ids_of p d
    same p =
        rw (lookup-change k p f d)
          (elim (Bool-cases (str_eq k p)) [ inl e ↦ rw e (kept (lookup p d)) | inr e ↦ rw e refl ])

-- Lists of names.
pub In-snoc : (xs : List String) (x c : String) → In c (xs ++ (x ∷ [])) → In c xs ⊎ (x ≡ c)
In-snoc [] x c (inl e) = inr e
In-snoc [] x c (inr i) = absurd i
In-snoc (y ∷ ys) x c (inl e) = inl (inl e)
In-snoc (y ∷ ys) x c (inr i) = elim (In-snoc ys x c i) [ inl j ↦ inl (inr j) | inr e ↦ inr e ]

pub snoc-Single : (xs : List String) (x : String) → ¬ In x xs → Single xs → Single (xs ++ (x ∷ []))
snoc-Single [] x n h = (λ i. i, tt)
snoc-Single (y ∷ ys) x n (h, hs) = (
  λ i. elim (In-snoc ys x y i) [ inl j ↦ h j | inr e ↦ n (inl (sym e)) ],
  snoc-Single ys x (λ i. n (inr i)) hs,
)

pub In-remove_first : (x c : String) (xs : List String) → In c (remove_first x xs) → In c xs
unfolding remove_first
In-remove_first x c [] i = i
In-remove_first x c (y ∷ ys) i = elim (Bool-cases (str_eq y x)) [
  | inl e ↦ inr (rw e at i)
  | inr e ↦ later (In-remove_first x c ys) (rw e at i)
]
  where
    later : (In c (remove_first x ys) → In c ys) → In c (y ∷ remove_first x ys) → In c (y ∷ ys)
    later rest (inl q) = inl q
    later rest (inr j) = inr (rest j)

pub remove_first-Single : (x : String) (xs : List String) → Single xs → Single (remove_first x xs)
unfolding remove_first
remove_first-Single x [] h = tt
remove_first-Single x (y ∷ ys) (h, hs) = elim (Bool-cases (str_eq y x)) [
  | inl e ↦ rw e hs
  | inr e ↦ rw e (λ i. h (In-remove_first x y ys i), remove_first-Single x ys hs)
]

pub removed_first : (x : String) (xs : List String) → Single xs → ¬ In x (remove_first x xs)
unfolding remove_first
removed_first x [] h i = i
removed_first x (y ∷ ys) (h, hs) i = elim (Bool-cases (str_eq y x)) [
  | inl e ↦ h (subst (λ z. In z ys) (sym ((eq_iff y x).0 e)) (rw e at i))
  | inr e ↦ later (removed_first x ys hs) e (rw e at i)
]
  where
    later : (¬ In x (remove_first x ys)) → str_eq y x ≡ false → In x (y ∷ remove_first x ys) → ⊥
    later rest e (inl q) = ground (arith, eq_iff y x, e, q)
    later rest e (inr j) = rest j

pub remove_first-absent :
    (x : String) (xs : List String) → anyb (λ y. str_eq y x) xs ≡ false → remove_first x xs ≡ xs
unfolding remove_first
remove_first-absent x [] h = refl
remove_first-absent x (y ∷ ys) h = ground (arith, remove_first-absent x ys, h)

pub child_ids-drop_child :
    (c : String) (a : AgentInfo) → (drop_child c a).child_ids ≡ remove_first c a.child_ids
child_ids-drop_child c a = elim (Bool-cases (anyb (λ x. str_eq x c) a.child_ids)) [
  | inl e ↦ rw e refl
  | inr e ↦ rw e (sym (remove_first-absent c a.child_ids e))
]
