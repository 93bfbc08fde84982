-- ===== src/Progress/History.antt =====
-- What `ProgressEngine` of rann_agent/planning/progress.py keeps of its iterations.
use rann_agent.Prelude.{
  zero, suc, ℕ, ◌+◌, ◌-◌, ◌≤◌, String, ◌≡◌, refl, ◌∙◌, sym, ap, Bool, true, List, [], ◌∷◌, ◌++◌,
  length, drop, length-append, length-drop, append_assoc, append-nil, str_eq, eq_iff, ltb, leb,
  if◌then◌else◌, arith, Bool-cases, inl, inr,
}
use rann_agent.Dict.{Dict, lookup, lookup-insert}
use rann_agent.Progress.Defs.{
  Iteration, Engine, new_engine, or_zero, count_one, newest, record_iteration, count_in,
}

module _ {A : Type 0} where
  drop-append : (n : ℕ) (xs ys : List A) → n ≤ length xs → drop n (xs ++ ys) ≡ drop n xs ++ ys
  drop-append zero xs ys h = refl
  drop-append (suc n) [] ys h = absurd (omega (arith, h))
  drop-append (suc n) (x ∷ xs) ys h = drop-append n xs ys (omega (arith, h))

  drop_none : (n : ℕ) → ◌≡◌ {A = List A} (drop n []) []
  drop_none zero = refl
  drop_none (suc n) = refl

  drop-drop : (m n : ℕ) (xs : List A) → drop m (drop n xs) ≡ drop (n + m) xs
  drop-drop m zero xs = let e : m ≡ 0 + m = omega arith in ap (λ k. drop k xs) e
  drop-drop m (suc n) [] = drop_none m ∙ sym (drop_none (suc n + m))
  drop-drop m (suc n) (x ∷ xs) =
      let e : suc (n + m) ≡ suc n + m = omega arith in
      drop-drop m n xs ∙ ap (λ k. drop k (x ∷ xs)) e

  -- Keeping the newest after one more is as good as keeping all of them before.
  newest-snoc :
      (n : ℕ) (xs : List A) (x : A)
      → drop
          (length (drop (length xs - n) xs ++ (x ∷ [])) - n)
          (drop (length xs - n) xs ++ (x ∷ []))
        ≡ drop (length (xs ++ (x ∷ [])) - n) (xs ++ (x ∷ []))
  newest-snoc n xs x = rw (sym (drop-append (length xs - n) xs (x ∷ []) (omega arith))) (
      drop-drop _ (length xs - n) (xs ++ (x ∷ []))
      ∙ ap (λ m. drop m (xs ++ (x ∷ [])))
          (omega (arith, length-append xs (x ∷ []), length-drop (length xs - n) (xs ++ (x ∷ [])))))

-- What is recorded, in order.
module _ (mentions : String → String → Bool) where
  abbrev pub record_all : List Iteration → Engine → Engine
  record_all [] e = e
  record_all (i ∷ is) e = record_all is (record_iteration mentions i e)

  trimmed-newest :
      (n : ℕ) (all : List Iteration)
      → 1 ≤ n
      → (if ltb n (length all) then newest n all else all) ≡ drop (length all - n) all
  trimmed-newest n all h = elim (Bool-cases (ltb n (length all))) [
    | inl e ↦ rw (e, at_least n h) refl
    | inr e ↦ rw e (let z : 0 ≡ length all - n = ground (arith, e) in ap (λ k. drop k all) z)
  ]
    where
      at_least : (n : ℕ) → 1 ≤ n → leb 1 n ≡ true
      at_least n h = ground (arith, h)

  record_all-history :
      (is : List Iteration) (e : Engine) (old : List Iteration)
      → 1 ≤ e.max_history
      → e.iterations ≡ drop (length old - e.max_history) old
      → (record_all is e).iterations ≡ drop (length (old ++ is) - e.max_history) (old ++ is)
  unfolding record_iteration
  record_all-history [] e old h k =
      k ∙ ap (λ xs. drop (length xs - e.max_history) xs) (sym (append-nil old))
  record_all-history (i ∷ is) e old h k =
      record_all-history is (record_iteration mentions i e) (old ++ (i ∷ [])) h (
        trimmed-newest e.max_history (e.iterations ++ (i ∷ [])) h
        ∙ ap (λ xs. drop (length (xs ++ (i ∷ [])) - e.max_history) (xs ++ (i ∷ []))) k
        ∙ newest-snoc e.max_history old i)
      ∙ ap (λ xs. drop (length xs - e.max_history) xs) (append_assoc old (i ∷ []) is)

  count_one-lookup :
      (k j : String) (d : Dict ℕ)
      → or_zero (lookup j (count_one k d))
        ≡ (if str_eq k j then or_zero (lookup j d) + 1 else or_zero (lookup j d))
  unfolding count_one
  count_one-lookup k j d =
      rw (lookup-insert k j (or_zero (lookup k d) + 1) d) (elim (Bool-cases (str_eq k j)) [
        | inl e ↦ rw (e, (eq_iff k j).0 e) refl
        | inr e ↦ rw e refl
      ])

  record_all-counts :
      (a : String) (is : List Iteration) (e : Engine)
      → or_zero (lookup a (record_all is e).action_counts)
        ≡ or_zero (lookup a e.action_counts) + count_in a is
  unfolding record_iteration count_in
  record_all-counts a [] e = omega arith
  record_all-counts a (i ∷ is) e = ground (
    arith,
    record_all-counts a is (record_iteration mentions i e),
    count_one-lookup i.action a e.action_counts,
  )

  -- After any recorded iterations an engine that may keep at least one holds exactly the newest of them,
  -- as many as it may keep, in order, while each action is counted over all of them.
  pub record_all-Kept :
      (n : ℕ) (is : List Iteration)
      → 1 ≤ n
      → ((record_all is (new_engine n)).iterations ≡ drop (length is - n) is)
        × ((a : String)
            → or_zero (lookup a (record_all is (new_engine n)).action_counts) ≡ count_in a is)
  unfolding new_engine lookup
  record_all-Kept n is h = (
    record_all-history is (new_engine n) [] h (sym (drop_none (0 - n))),
    λ a. record_all-counts a is (new_engine n) ∙ omega arith,
  )
