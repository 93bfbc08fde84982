-- ===== src/TaskGraph/Texts.antt =====
-- The lists of names that `get_parallel_batches` of rann_agent/orchestration/task_graph.py sorts and
-- filters.
use rann_agent.Prelude.{
  String, ◌≡◌, ◌⊎◌, refl, Bool, true, List, [], ◌∷◌, ◌++◌, filterb, str_eq, All, In, arith,
  Bool-cases, inl, inr, eq_iff, subst, sym,
}
use rann_agent.TaskGraph.Node.{contains}
use rann_agent.TaskGraph.Batches.{insert_text, sort_texts}

pub All-In : (P : String → Type 0) (xs : List String) → ((k : String) → In k xs → P k) → All P xs
All-In P [] h = tt
All-In P (x ∷ xs) h = (h x (inl refl), All-In P xs (λ k i. h k (inr i)))

pub In-filterb :
    (p : String → Bool) (x : String) (xs : List String)
    → In x (filterb p xs)
    → In x xs × (p x ≡ true)
In-filterb p x [] h = absurd h
In-filterb p x (y ∷ ys) h = elim (Bool-cases (p y)) [
  | inl e ↦ kept (In-filterb p x ys) e (rw e at h)
  | inr e ↦ let (i, t) = In-filterb p x ys (rw e at h) in (inr i, t)
]
  where
    kept :
        (In x (filterb p ys) → In x ys × (p x ≡ true))
        → p y ≡ true
        → In x (y ∷ filterb p ys)
        → In x (y ∷ ys) × (p x ≡ true)
    kept rest e (inl q) = (inl q, subst (λ z. p z ≡ true) q e)
    kept rest e (inr i) = let (j, t) = rest i in (inr j, t)

pub filterb-In :
    (p : String → Bool) (x : String) (xs : List String) → In x xs → p x ≡ true → In x (filterb p xs)
filterb-In p x [] i t = i
filterb-In p x (y ∷ ys) (inl q) t = rw (subst (λ z. p z ≡ true) (sym q) t) (inl q)
filterb-In p x (y ∷ ys) (inr i) t = elim (Bool-cases (p y)) [
  | inl e ↦ rw e (inr (filterb-In p x ys i t))
  | inr e ↦ rw e (filterb-In p x ys i t)
]

In-insert_text : (x y : String) (ys : List String) → In x (insert_text y ys) → (y ≡ x) ⊎ In x ys
unfolding insert_text
In-insert_text x y [] h = h
In-insert_text x y (z ∷ zs) h = ground (arith, In-insert_text x y zs)

pub In-sort_texts : (x : String) (xs : List String) → In x (sort_texts xs) → In x xs
unfolding sort_texts
In-sort_texts x [] h = h
In-sort_texts x (y ∷ ys) h = elim (In-insert_text x y (sort_texts ys) h) [
  | inl e ↦ inl e
  | inr i ↦ inr (In-sort_texts x ys i)
]

insert_text-In : (x y : String) (ys : List String) → (y ≡ x) ⊎ In x ys → In x (insert_text y ys)
unfolding insert_text
insert_text-In x y [] h = h
insert_text-In x y (z ∷ zs) h = ground (arith, insert_text-In x y zs)

pub sort_texts-In : (x : String) (xs : List String) → In x xs → In x (sort_texts xs)
unfolding sort_texts
sort_texts-In x [] h = h
sort_texts-In x (y ∷ ys) (inl e) = insert_text-In x y (sort_texts ys) (inl e)
sort_texts-In x (y ∷ ys) (inr i) = insert_text-In x y (sort_texts ys) (inr (sort_texts-In x ys i))

pub contains-In : (x : String) (xs : List String) → contains x xs ≡ true → In x xs
contains-In x [] h = absurd (ground (arith, h))
contains-In x (y ∷ ys) h = elim (Bool-cases (str_eq y x)) [
  | inl e ↦ inl ((eq_iff y x).0 e)
  | inr e ↦ inr (contains-In x ys (rw e at h))
]

pub In-contains : (x : String) (xs : List String) → In x xs → contains x xs ≡ true
In-contains x [] i = absurd i
In-contains x (y ∷ ys) (inl e) = rw ((eq_iff y x).1 e) refl
In-contains x (y ∷ ys) (inr i) = ground (arith, In-contains x ys i)

pub In-append : (x : String) (xs ys : List String) → In x (xs ++ ys) → In x xs ⊎ In x ys
In-append x [] ys i = inr i
In-append x (z ∷ zs) ys (inl e) = inl (inl e)
In-append x (z ∷ zs) ys (inr i) = elim (In-append x zs ys i) [ inl j ↦ inl (inr j) | inr j ↦ inr j ]

pub append-In : (x : String) (xs ys : List String) → In x xs ⊎ In x ys → In x (xs ++ ys)
append-In x [] ys (inl i) = absurd i
append-In x [] ys (inr i) = i
append-In x (z ∷ zs) ys (inl (inl e)) = inl e
append-In x (z ∷ zs) ys (inl (inr i)) = inr (append-In x zs ys (inl i))
append-In x (z ∷ zs) ys (inr i) = inr (append-In x zs ys (inr i))
