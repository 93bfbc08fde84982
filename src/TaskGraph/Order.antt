-- ===== src/TaskGraph/Order.antt =====
-- About the search of `_detect_cycles`, rann_agent/orchestration/task_graph.py, where it returns.
use rann_agent.Prelude.{
  ℕ, zero, suc, String, ◌≡◌, ◌⊎◌, refl, Option, none, some, List, [], ◌∷◌, arith, All, In, inl, inr,
  eq_iff, subst,
}
use rann_agent.Exec.{Result, ok, err}
use rann_agent.Dict.{lookup, insert, lookup-insert}
use rann_agent.TaskGraph.Node.{Node, Tasks}
use rann_agent.TaskGraph.Cycles.{
  Color, white, grey, black, Colors, color_of, Invalid, after, Search, meet, visit, enter, dfs,
  start, search_all,
}

-- Each task of the list is in the graph, and its dependencies stand behind it.
abbrev pub IsOrder : Tasks → List String → Type 0
IsOrder ts [] = Unit
IsOrder ts (k ∷ ks) =
    ((n : Node) × (lookup k ts ≡ some n) × All (λ d. In d ks) n.dependencies) × IsOrder ts ks

-- The black tasks are in the list.
abbrev pub AreBlack : Colors → List String → Type 0
AreBlack c order = (k : String) → lookup k c ≡ some black → In k order

ok_same : {A : Type 0} → (a b : A) → ◌≡◌ {A = Result Invalid A} (ok a) (ok b) → a ≡ b
ok_same a b h = cc

black_there : (x : Option Color) → color_of x ≡ black → x ≡ some black
black_there none h = cc
black_there (some c) h = cc

grey_there : (x : Option Color) → color_of x ≡ grey → x ≡ some grey
grey_there none h = cc
grey_there (some c) h = cc

insert_black :
    (tid k : String) (c : Colors)
    → lookup k (insert tid black c) ≡ some black
    → (tid ≡ k) ⊎ (lookup k c ≡ some black)
insert_black tid k c h = ground (arith, lookup-insert tid k black c, eq_iff tid k)

insert_grey :
    (tid k : String) (c : Colors)
    → lookup k (insert tid grey c) ≡ some black
    → lookup k c ≡ some black
insert_grey tid k c h = ground (arith, lookup-insert tid k grey c)

grey_back :
    (tid k : String) (c c' : Colors)
    → (lookup k c' ≡ some grey → lookup k (insert tid grey c) ≡ some grey)
    → lookup k (insert tid black c') ≡ some grey
    → lookup k c ≡ some grey
grey_back tid k c c' h g =
    ground (arith, lookup-insert tid k grey c, lookup-insert tid k black c', h)

module _ (ts : Tasks) where
  -- From the colors `c` and the order of the black tasks, a part of the search has come to `c'`.
  pub record Searched (c : Colors) (order : List String) (c' : Colors) (order' : List String)
      : Type 0 where
    pub is_order : IsOrder ts order'
    pub blacks : AreBlack c' order'
    pub more : (k : String) → In k order → In k order'
    pub greys : (k : String) → lookup k c' ≡ some grey → lookup k c ≡ some grey

  pub after_ok :
      {A B : Type 0} (m : Result Invalid A) (f : A → Result Invalid B) (b : B)
      → after m f ≡ ok b
      → (a : A) × (m ≡ ok a) × (f a ≡ ok b)
  after_ok (ok a) f b h = (a, refl, h)
  after_ok (err e) f b h = cc

  Searched-nothing :
      (c : Colors) (order : List String)
      → IsOrder ts order
      → AreBlack c order
      → Searched c order c order
  Searched-nothing c order o b = record {
    is_order = o;
    blacks = b;
    more = λ k h. h;
    greys = λ k h. h;
  }

  Searched-both :
      (c c₁ c₂ : Colors) (o o₁ o₂ : List String)
      → Searched c o c₁ o₁
      → Searched c₁ o₁ c₂ o₂
      → Searched c o c₂ o₂
  Searched-both c c₁ c₂ o o₁ o₂ p q = record {
    is_order = q.is_order;
    blacks = q.blacks;
    more = λ k h. q.more k (p.more k h);
    greys = λ k h. p.greys k (q.greys k h);
  }

  -- What a search of a task promises if it returns.
  abbrev pub IsRight : Search → Type 0
  IsRight rec =
      (tid : String) (c c' : Colors) (order : List String)
      → rec tid c ≡ ok c'
      → IsOrder ts order
      → AreBlack c order
      → (order' : List String) × Searched c order c' order' × In tid order'

  meet_right :
      (rec : Search)
      → IsRight rec
      → (tid d : String) (c c' : Colors) (order : List String)
      → meet rec tid d (color_of (lookup d c)) c ≡ ok c'
      → IsOrder ts order
      → AreBlack c order
      → (order' : List String) × Searched c order c' order' × In d order'
  meet_right rec r tid d c c' order h o b = met (color_of (lookup d c)) refl h
    where
      met :
          (x : Color)
          → color_of (lookup d c) ≡ x
          → meet rec tid d x c ≡ ok c'
          → (order' : List String) × Searched c order c' order' × In d order'
      met white e h = r d c c' order h o b
      met grey e h = cc
      met black e h = (
        order,
        subst (λ x. Searched c order x order) (ok_same c c' h) (Searched-nothing c order o b),
        b d (black_there (lookup d c) e),
      )

  visit_right :
      (rec : Search)
      → IsRight rec
      → (tid : String) (ds : List String) (c c' : Colors) (order : List String)
      → visit rec tid ds c ≡ ok c'
      → IsOrder ts order
      → AreBlack c order
      → (order' : List String) × Searched c order c' order' × All (λ d. In d order') ds
  unfolding visit
  visit_right rec r tid [] c c' order h o b = (
    order,
    subst (λ x. Searched c order x order) (ok_same c c' h) (Searched-nothing c order o b),
    tt,
  )
  visit_right rec r tid (d ∷ ds) c c' order h o b =
      let (c₁, h₁, h₂) = after_ok _ (visit rec tid ds) c' h in
      let (o₁, s₁, i₁) = meet_right rec r tid d c c₁ order h₁ o b in
      let (o₂, s₂, i₂) = visit_right rec r tid ds c₁ c' o₁ h₂ s₁.is_order s₁.blacks in
      (o₂, Searched-both c c₁ c' order o₁ o₂ s₁ s₂, (s₂.more d i₁, i₂))

  enter_right :
      (rec : Search)
      → IsRight rec
      → (tid : String) (x : Option Node) (c c' : Colors) (order : List String) → lookup tid ts ≡ x
      → enter rec tid x c ≡ ok c'
      → IsOrder ts order
      → AreBlack c order
      → (order' : List String) × Searched c order c' order' × In tid order'
  enter_right rec r tid none c c' order e h o b = cc
  enter_right rec r tid (some n) c c' order e h o b =
      let (c₁, h₁, h₂) = after_ok _ (λ c₂. ok (insert tid black c₂)) c' h in
      let (o₁, s₁, deps) =
        visit_right rec r tid n.dependencies (insert tid grey c) c₁ order h₁ o
          (λ k q. b k (insert_grey tid k c q)) in
      (
        tid ∷ o₁,
        subst (λ x. Searched c order x (tid ∷ o₁)) (ok_same (insert tid black c₁) c' h₂)
            (record {
              is_order = ((n, e, deps), s₁.is_order);
              blacks = λ k q. elim (insert_black tid k c₁ q) [
                | inl same ↦ inl same
                | inr before ↦ inr (s₁.blacks k before)
              ];
              more = λ k q. inr (s₁.more k q);
              greys = λ k q. grey_back tid k c c₁ (s₁.greys k) q;
            }),
        inl refl,
      )

  pub dfs-IsRight : (fuel : ℕ) → IsRight (dfs fuel ts)
  unfolding dfs
  dfs-IsRight zero tid c c' order h o b = cc
  dfs-IsRight (suc n) tid c c' order h o b =
      enter_right (dfs n ts) (dfs-IsRight n) tid (lookup tid ts) c c' order refl h o b

  abbrev pub NoGrey : Colors → Type 0
  NoGrey c = (k : String) → (lookup k c ≡ some grey) → ⊥

  start_right :
      (rec : Search)
      → IsRight rec
      → (k : String) (c c' : Colors) (order : List String)
      → start rec k (color_of (lookup k c)) c ≡ ok c'
      → IsOrder ts order
      → AreBlack c order
      → NoGrey c
      → (order' : List String) × Searched c order c' order' × In k order'
  start_right rec r k c c' order h o b g = started (color_of (lookup k c)) refl h
    where
      started :
          (x : Color)
          → color_of (lookup k c) ≡ x
          → start rec k x c ≡ ok c'
          → (order' : List String) × Searched c order c' order' × In k order'
      started white e h = r k c c' order h o b
      started grey e h = absurd (g k (grey_there (lookup k c) e))
      started black e h = (
        order,
        subst (λ x. Searched c order x order) (ok_same c c' h) (Searched-nothing c order o b),
        b k (black_there (lookup k c) e),
      )

  pub search_all_right :
      (rec : Search)
      → IsRight rec
      → (ks : List String) (c c' : Colors) (order : List String) → search_all rec ks c ≡ ok c'
      → IsOrder ts order
      → AreBlack c order
      → NoGrey c
      → (order' : List String) × Searched c order c' order' × All (λ k. In k order') ks
  unfolding search_all
  search_all_right rec r [] c c' order h o b g = (
    order,
    subst (λ x. Searched c order x order) (ok_same c c' h) (Searched-nothing c order o b),
    tt,
  )
  search_all_right rec r (k ∷ ks) c c' order h o b g =
      let (c₁, h₁, h₂) = after_ok _ (search_all rec ks) c' h in
      let (o₁, s₁, i₁) = start_right rec r k c c₁ order h₁ o b g in
      let (o₂, s₂, i₂) =
        search_all_right rec r ks c₁ c' o₁ h₂ s₁.is_order s₁.blacks (λ j q. g j (s₁.greys j q)) in
      (o₂, Searched-both c c₁ c' order o₁ o₂ s₁ s₂, (s₂.more k i₁, i₂))
