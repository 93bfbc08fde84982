-- ===== src/SharedContext/Order.antt =====
-- About the version vectors of rann_agent/orchestration/shared_context.py.
use rann_agent.Prelude.{
  ℕ, ◌≤◌, ◌<◌, max, String, ◌≡◌, ◌↔◌, ◌⊎◌, Bool, true, false, List, [], ◌∷◌, ◌++◌, In, inl, inr,
  str_eq, eq_iff, ltb, arith, if◌then◌else◌, Bool-cases, subst, sym,
}
use rann_agent.Dict.{lookup, has_key, insert, keys, lookup-insert, Distinct}
use rann_agent.SharedContext.Vector.{Vector, count_of, merge, compare_all, happened_before}

pub count_of-insert :
    (k j : String) (n : ℕ) (v : Vector)
    → count_of j (insert k n v) ≡ (if str_eq k j then n else count_of j v)
unfolding count_of
count_of-insert k j n v = ground (arith, lookup-insert k j n v)

count_of-none : (k : String) (v : Vector) → has_key k v ≡ false → count_of k v ≡ 0
unfolding count_of has_key
count_of-none k v h = ground arith

count_of-cons :
    (k j : String) (n : ℕ) (v : Vector)
    → count_of j ((k, n) ∷ v) ≡ (if str_eq k j then n else count_of j v)
unfolding count_of lookup
count_of-cons k j n v = ground arith

-- After a merge the count of each agent is the larger of its two counts.
pub count_of-merge :
    (v other : Vector)
    → Distinct other
    → (j : String) → count_of j (merge v other) ≡ max (count_of j v) (count_of j other)
unfolding merge
count_of-merge v [] d j = unfold count_of lookup in omega arith
count_of-merge v ((k, n) ∷ other) (h, d) j = ground (
  arith,
  count_of-merge (insert k (max (count_of k v) n) v) other d j,
  count_of-insert k j (max (count_of k v) n) v,
  count_of-cons k j n other,
  eq_iff k j,
  count_of-none k other h,
)

-- `v` counts no more than `other` for any agent, and less for one.
abbrev pub IsBefore : Vector → Vector → Type 0
IsBefore v other =
    ((k : String) → count_of k v ≤ count_of k other)
    × ((k : String) × (count_of k v < count_of k other))

count_there : (k : String) (v : Vector) → 0 < count_of k v → In k (keys v)
unfolding count_of lookup keys
count_there k [] h = omega arith
count_there k ((j, n) ∷ v) h = ground (arith, eq_iff j k, count_there k v)

compare_all-le :
    (v w : Vector) (ks : List String) (b : Bool)
    → compare_all v w ks b ≡ true
    → (k : String) → In k ks
    → count_of k v ≤ count_of k w
unfolding compare_all
compare_all-le v w (j ∷ ks) b h k (inl e) =
    subst (λ x. count_of x v ≤ count_of x w) e (ground (arith, h))
compare_all-le v w (j ∷ ks) b h k (inr i) = elim (Bool-cases (ltb (count_of j w) (count_of j v))) [
  | inl e ↦ absurd (ground (arith, h, e))
  | inr e ↦ compare_all-le v w ks _ (rw e at h) k i
]
compare_all-le v w [] b h k i = absurd i

compare_all-lt :
    (v w : Vector) (ks : List String) (b : Bool)
    → compare_all v w ks b ≡ true
    → (b ≡ true) ⊎ ((k : String) × (count_of k v < count_of k w))
unfolding compare_all
compare_all-lt v w [] b h = inl h
compare_all-lt v w (j ∷ ks) b h = elim (Bool-cases (ltb (count_of j w) (count_of j v))) [
  | inl e ↦ absurd (ground (arith, h, e))
  | inr e ↦ elim (Bool-cases (ltb (count_of j v) (count_of j w))) [
    | inl less ↦ inr (j, ground (arith, less))
    | inr same ↦ compare_all-lt v w ks b (rw (e, same) at h)
  ]
]

ltb-false : (n m : ℕ) → m ≤ n → ltb n m ≡ false
ltb-false n m h = ground (arith, h)

zero_or : (n : ℕ) → (n ≡ 0) ⊎ (0 < n)
zero_or n = ground arith

In-left : (xs ys : List String) (k : String) → In k xs → In k (xs ++ ys)
In-left (x ∷ xs) ys k (inl e) = inl e
In-left (x ∷ xs) ys k (inr i) = inr (In-left xs ys k i)
In-left [] ys k i = absurd i

In-right : (xs ys : List String) (k : String) → In k ys → In k (xs ++ ys)
In-right [] ys k i = i
In-right (x ∷ xs) ys k i = inr (In-right xs ys k i)

compare_all-true :
    (v w : Vector) (ks : List String) (b : Bool)
    → ((k : String) → count_of k v ≤ count_of k w)
    → (b ≡ true) ⊎ ((k : String) × In k ks × (count_of k v < count_of k w))
    → compare_all v w ks b ≡ true
unfolding compare_all
compare_all-true v w [] b h (inl e) = e
compare_all-true v w [] b h (inr (k, i, l)) = absurd i
compare_all-true v w (j ∷ ks) b h q =
    rw (ltb-false (count_of j w) (count_of j v) (h j)) (compare_all-true v w ks _ h (found q))
  where
    found :
        (b ≡ true) ⊎ ((k : String) × In k (j ∷ ks) × (count_of k v < count_of k w))
        → ((if ltb (count_of j v) (count_of j w) then true else b) ≡ true)
          ⊎ ((k : String) × In k ks × (count_of k v < count_of k w))
    found (inl e) = inl (ground (arith, e))
    found (inr (k, inr i, l)) = inr (k, i, l)
    found (inr (k, inl e, l)) = inl (
        subst (λ x. (if ltb (count_of x v) (count_of x w) then true else b) ≡ true) (sym e)
          (ground (arith, l)))

-- `happened_before` answers true exactly where no agent has counted more in the first vector and one
-- has counted less.
pub happened_before_exact : (v w : Vector) → (happened_before v w ≡ true) ↔ IsBefore v w
unfolding happened_before
happened_before_exact v w =
    (λ h. before h, λ (le, (k, l)). compare_all-true v w _ false le (inr (k, there k l, l)))
  where
    there : (k : String) → count_of k v < count_of k w → In k (keys v ++ keys w)
    there k l = In-right (keys v) (keys w) k (count_there k w (omega (arith, l)))

    le_at :
        compare_all v w (keys v ++ keys w) false ≡ true → (k : String) → count_of k v ≤ count_of k w
    le_at h k = elim (zero_or (count_of k v)) [
      | inl z ↦ omega (arith, z)
      | inr p ↦ compare_all-le v w _ false h k (In-left (keys v) (keys w) k (count_there k v p))
    ]

    before : compare_all v w (keys v ++ keys w) false ≡ true → IsBefore v w
    before h = elim (compare_all-lt v w _ false h) [
      | inl e ↦ absurd (ground (arith, e))
      | inr found ↦ (le_at h, found)
    ]
