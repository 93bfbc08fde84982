-- ===== src/TaskGraph/Fuel.antt =====
-- About how the search of `_detect_cycles`, rann_agent/orchestration/task_graph.py, can fail.
use rann_agent.Prelude.{
  ℕ, zero, suc, ◌+◌, ◌<◌, ◌≤◌, String, ◌≡◌, refl, ap, Bool, true, false, Option, none, some, List,
  [], ◌∷◌, arith, In, inl, inr, eq_iff, eq_refl, length, subst, sym, if◌then◌else◌, is_some,
}
use rann_agent.Exec.{Result, ok, err}
use rann_agent.Dict.{lookup, has_key, keys, insert, lookup-insert}
use rann_agent.TaskGraph.Node.{Node, Tasks}
use rann_agent.TaskGraph.Cycles.{
  Color, white, grey, black, Colors, color_of, Invalid, cycle, key_error, unknown_dependency,
  out_of_fuel, after, Search, dfs, search_all, all_white, detect_cycles, meet, visit, enter, start,
}

abbrev pub is_white : Color → Bool
is_white white = true
is_white grey = false
is_white black = false

-- How many of the tasks are white.
pub whites : List String → Colors → ℕ
whites [] c = 0
whites (k ∷ ks) c = (if is_white (color_of (lookup k c)) then 1 else 0) + whites ks c

-- No task has become white.
abbrev pub Keeps : Colors → Colors → Type 0
Keeps c c' =
    (k : String)
    → is_white (color_of (lookup k c)) ≡ false
    → is_white (color_of (lookup k c')) ≡ false

whites-le : (ks : List String) (c c' : Colors) → Keeps c c' → whites ks c' ≤ whites ks c
unfolding whites
whites-le [] c c' h = omega arith
whites-le (k ∷ ks) c c' h = ground (arith, h k, whites-le ks c c' h)

insert-Keeps :
    (tid : String) (x : Color) (c : Colors) → is_white x ≡ false → Keeps c (insert tid x c)
insert-Keeps tid x c w k h = ground (arith, lookup-insert tid k x c)

whites-lt :
    (ks : List String) (tid : String) (c : Colors)
    → In tid ks
    → color_of (lookup tid c) ≡ white
    → whites ks (insert tid grey c) < whites ks c
unfolding whites
whites-lt (k ∷ ks) tid c (inl e) w =
    subst (λ x. whites (x ∷ ks) (insert tid grey c) < whites (x ∷ ks) c) (sym e)
      (rw (lookup-insert, eq_refl tid, w)
        (omega (arith, whites-le ks c (insert tid grey c) (insert-Keeps tid grey c refl))))
whites-lt (k ∷ ks) tid c (inr i) w =
    ground (arith, insert-Keeps tid grey c refl k, whites-lt ks tid c i w)
whites-lt [] tid c i w = absurd i

whites-length : (ks : List String) (c : Colors) → whites ks c ≤ length ks
unfolding whites
whites-length [] c = omega arith
whites-length (k ∷ ks) c = ground (arith, whites-length ks c)

has_key-In : (ts : Tasks) (k : String) → has_key k ts ≡ true → In k (keys ts)
unfolding has_key lookup keys
has_key-In [] k h = cc
has_key-In ((j, n) ∷ ts) k h = ground (arith, eq_iff j k, has_key-In ts k)

pub length-keys : (ts : Tasks) → length (keys ts) ≡ length ts
unfolding keys
length-keys [] = refl
length-keys ((k, n) ∷ ts) = omega (arith, length-keys ts)

module _ (ts : Tasks) where
  -- What an error tells: the search of a task that is there met one that it is still in, or it met
  -- one that is not there. Nothing else goes wrong.
  abbrev pub Explained : Invalid → Type 0
  Explained (cycle k) = has_key k ts ≡ true
  Explained (key_error k) = has_key k ts ≡ false
  Explained (unknown_dependency k d) = ⊥
  Explained out_of_fuel = ⊥

  abbrev pub Fair : Colors → Result Invalid Colors → Type 0
  Fair c (ok c') = Keeps c c'
  Fair c (err e) = Explained e

  Keeps-Fair : (c c₁ : Colors) (r : Result Invalid Colors) → Keeps c c₁ → Fair c₁ r → Fair c r
  Keeps-Fair c c₁ (ok c₂) h f = λ k q. f k (h k q)
  Keeps-Fair c c₁ (err e) h f = f

  Fair-after :
      (c : Colors) (m : Result Invalid Colors) (f : Colors → Result Invalid Colors)
      → Fair c m
      → ((c₁ : Colors) → Keeps c c₁ → Fair c₁ (f c₁))
      → Fair c (after m f)
  Fair-after c (ok c₁) f h g = Keeps-Fair c c₁ (f c₁) h (g c₁ h)
  Fair-after c (err e) f h g = h

  -- A search that has the fuel for fewer than `n` white tasks.
  abbrev pub IsFair : ℕ → Search → Type 0
  IsFair n rec =
      (tid : String) (c : Colors)
      → color_of (lookup tid c) ≡ white
      → whites (keys ts) c < n
      → Fair c (rec tid c)

  fewer : (n : ℕ) (c c₁ : Colors) → whites (keys ts) c < n → Keeps c c₁ → whites (keys ts) c₁ < n
  fewer n c c₁ h k = omega (arith, whites-le (keys ts) c c₁ k)

  meet-Fair :
      (n : ℕ) (rec : Search) (tid d : String) (c : Colors)
      → IsFair n rec
      → has_key tid ts ≡ true
      → whites (keys ts) c < n
      → Fair c (meet rec tid d (color_of (lookup d c)) c)
  meet-Fair n rec tid d c f h w = met (color_of (lookup d c)) refl
    where
      met : (x : Color) → color_of (lookup d c) ≡ x → Fair c (meet rec tid d x c)
      met white e = f d c e w
      met grey e = h
      met black e = λ k q. q

  visit-Fair :
      (n : ℕ) (rec : Search) (tid : String) (ds : List String) (c : Colors)
      → IsFair n rec
      → has_key tid ts ≡ true
      → whites (keys ts) c < n
      → Fair c (visit rec tid ds c)
  unfolding visit
  visit-Fair n rec tid [] c f h w = λ k q. q
  visit-Fair n rec tid (d ∷ ds) c f h w =
      Fair-after c _ (visit rec tid ds) (meet-Fair n rec tid d c f h w)
        (λ c₁ keeps. visit-Fair n rec tid ds c₁ f h (fewer n c c₁ w keeps))

  enter-Fair :
      (n : ℕ) (rec : Search) (tid : String) (x : Option Node) (c : Colors)
      → IsFair n rec
      → lookup tid ts ≡ x
      → color_of (lookup tid c) ≡ white
      → whites (keys ts) c < suc n
      → Fair c (enter rec tid x c)
  unfolding has_key
  enter-Fair n rec tid none c f e q w = ap is_some e
  enter-Fair n rec tid (some node) c f e q w =
      let there = ap is_some e in
      let c₁ = insert tid grey c in
      Keeps-Fair c c₁ _ (insert-Keeps tid grey c refl) (
        Fair-after c₁ (visit rec tid node.dependencies c₁) (λ c₂. ok (insert tid black c₂))
          (visit-Fair n rec tid node.dependencies c₁ f there
            (omega (arith, whites-lt (keys ts) tid c (has_key-In ts tid there) q)))
          (λ c₂ keeps. insert-Keeps tid black c₂ refl))

  dfs-IsFair : (n : ℕ) → IsFair n (dfs n ts)
  unfolding dfs
  dfs-IsFair zero tid c q w = omega arith
  dfs-IsFair (suc n) tid c q w =
      enter-Fair n (dfs n ts) tid (lookup tid ts) c (dfs-IsFair n) refl q w

  start-Fair :
      (n : ℕ) (rec : Search) (k : String) (c : Colors)
      → IsFair n rec
      → whites (keys ts) c < n
      → Fair c (start rec k (color_of (lookup k c)) c)
  start-Fair n rec k c f w = started (color_of (lookup k c)) refl
    where
      started : (x : Color) → color_of (lookup k c) ≡ x → Fair c (start rec k x c)
      started white e = f k c e w
      started grey e = λ k q. q
      started black e = λ k q. q

  search_all-Fair :
      (n : ℕ) (rec : Search) (ks : List String) (c : Colors)
      → IsFair n rec
      → whites (keys ts) c < n
      → Fair c (search_all rec ks c)
  unfolding search_all
  search_all-Fair n rec [] c f w = λ k q. q
  search_all-Fair n rec (k ∷ ks) c f w =
      Fair-after c _ (search_all rec ks) (start-Fair n rec k c f w)
        (λ c₁ keeps. search_all-Fair n rec ks c₁ f (fewer n c c₁ w keeps))

  pub detect_cycles-Fair : Fair (all_white ts) (detect_cycles ts)
  unfolding detect_cycles
  detect_cycles-Fair =
      search_all-Fair (suc (length ts)) (dfs (suc (length ts)) ts) (keys ts) (all_white ts)
        (dfs-IsFair (suc (length ts)))
        (omega (arith, whites-length (keys ts) (all_white ts), length-keys ts))
