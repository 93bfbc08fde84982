-- ===== src/Dict.antt =====
-- Python's `dict` with string keys, as a list of items in insertion order: a write to a key that
-- is there keeps its place, a write to a new key goes to the end.
use rann_agent.Prelude.{
  ◌+◌, ◌≤◌, String, ◌≡◌, refl, Bool, true, false, Option, none, some, List, [], ◌∷◌, arith, str_eq,
  eq_iff, if◌then◌else◌, length, is_some,
}

abbrev pub Dict {ℓ} : Type ℓ → Type ℓ
Dict V = List (String × V)

module _ {ℓ} {V : Type ℓ} where
  -- d.get(k)
  unfoldable pub lookup : String → Dict V → Option V
  lookup k [] = none
  lookup k ((j, v) ∷ d) = if str_eq j k then some v else lookup k d

  -- k in d
  unfoldable pub has_key : String → Dict V → Bool
  has_key k d = is_some (lookup k d)

  -- d[k] = v
  unfoldable pub insert : String → V → Dict V → Dict V
  insert k v [] = (k, v) ∷ []
  insert k v ((j, w) ∷ d) = if str_eq j k then (j, v) ∷ d else (j, w) ∷ insert k v d

  -- d.pop(k, None), del d[k]: a key of a Python dict stands once, so one item goes
  unfoldable pub delete : String → Dict V → Dict V
  delete k [] = []
  delete k ((j, w) ∷ d) = let rest = delete k d in if str_eq j k then rest else (j, w) ∷ rest

  -- list(d.values())
  unfoldable pub values : Dict V → List V
  values [] = []
  values ((j, w) ∷ d) = w ∷ values d

  -- list(d.keys())
  unfoldable pub keys : Dict V → List String
  keys [] = []
  keys ((j, w) ∷ d) = j ∷ keys d

  pub lookup-insert :
      (k j : String) (v : V) (d : Dict V)
      → lookup j (insert k v d) ≡ (if str_eq k j then some v else lookup j d)
  unfolding lookup insert
  lookup-insert k j v [] = refl
  lookup-insert k j v ((i, w) ∷ d) =
      ground (arith, eq_iff k j, eq_iff i k, eq_iff i j, lookup-insert k j v d)

  pub lookup-delete :
      (k j : String) (d : Dict V)
      → lookup j (delete k d) ≡ (if str_eq k j then none else lookup j d)
  unfolding lookup delete
  lookup-delete k j [] = ground arith
  lookup-delete k j ((i, w) ∷ d) =
      ground (arith, eq_iff k j, eq_iff i k, eq_iff i j, lookup-delete k j d)

  -- A key that is there keeps the size, a new one adds one item.
  pub length-insert :
      (k : String) (v : V) (d : Dict V)
      → length (insert k v d) ≡ (if has_key k d then length d else length d + 1)
  unfolding lookup insert has_key
  length-insert k v [] = omega arith
  length-insert k v ((i, w) ∷ d) = ground (arith, length-insert k v d)

  pub length-delete-le : (k : String) (d : Dict V) → length (delete k d) ≤ length d
  unfolding delete
  length-delete-le k [] = omega arith
  length-delete-le k ((i, w) ∷ d) = ground (arith, length-delete-le k d)

  pub length-delete-has :
      (k : String) (d : Dict V) → has_key k d ≡ true → length (delete k d) + 1 ≤ length d
  unfolding delete has_key lookup
  length-delete-has k [] h = ground arith
  length-delete-has k ((i, w) ∷ d) h = ground (arith, length-delete-le k d, length-delete-has k d)

-- No key stands twice, as in every Python dict.
abbrev pub Distinct {ℓ} : {V : Type ℓ} → Dict V → Type 0
Distinct [] = Unit
Distinct ((k, v) ∷ d) = (has_key k d ≡ false) × Distinct d

module _ {ℓ} {V : Type ℓ} where
  pub has_key-insert :
      (k j : String) (v : V) (d : Dict V)
      → has_key j (insert k v d) ≡ (if str_eq k j then true else has_key j d)
  unfolding has_key
  has_key-insert k j v d = ground (arith, lookup-insert k j v d)

  pub insert-Distinct : (k : String) (v : V) (d : Dict V) → Distinct d → Distinct (insert k v d)
  unfolding insert has_key lookup
  insert-Distinct k v [] h = (refl, tt)
  insert-Distinct k v ((j, w) ∷ d) (h, hs) =
      ground (arith, has_key-insert k j v d, insert-Distinct k v d hs, eq_iff j k, eq_iff k j)
