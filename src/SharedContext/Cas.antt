-- ===== src/SharedContext/Cas.antt =====
-- About the versions of rann_agent/orchestration/shared_context.py.
use rann_agent.Prelude.{
  sym, ℕ, ◌+◌, ◌≤◌, String, ◌≡◌, ◌≢◌, refl, Bool, true, false, Option, none, some, List, ◌==◌,
  arith, ap, ◌∙◌, sym, ==_iff,
}
use rann_agent.Dict.{lookup}
use rann_agent.Json.{Json}
use rann_agent.SharedContext.Vector.{count_of}
use rann_agent.SharedContext.Entry.{ContextEntry}
use rann_agent.SharedContext.Store.{
  Store, live, set, set_if_version, stored_version, version_for, remove,
}
use rann_agent.SharedContext.Sets.{
  next_version, lookup-set, value-set, version-set, live-set, version_for-set, default_ttl-set,
  default_ttl-remove, count-set, lookup-remove, count-remove,
}

not_equal : (n m : ℕ) → n ≢ m → (n == m) ≡ false
not_equal n m h = ground (arith, h)

-- What `set_if_version` comes to on a store: it answers true exactly if the version that is stored, or 0
-- where nothing is, is the expected one; else the store stays as it is. Where it answers true, the key
-- has the value, under the next version of its entry if that has not expired, and else under the next
-- count of the store.
pub set_if_version_answer :
    (key : String) (value : Json) (expected : ℕ) (ttl : Option ℕ) (tags : Option (List String))
    (now : ℕ) (written : Bool) (c : Store)
    → (stored_version (lookup key c.memory) ≡ expected
        → ((set_if_version key value expected ttl tags now written c).0 ≡ true)
          × ((e : ContextEntry) × (lookup key
                  (set_if_version key value expected ttl tags now written c).1.memory
                ≡ some e)
              × (e.value ≡ value)
              × (e.version
                  ≡ next_version (count_of c.agent_id c.vv) (live now (lookup key c.memory)))))
      × ((stored_version (lookup key c.memory) ≢ expected)
          → set_if_version key value expected ttl tags now written c ≡ (false, c))
unfolding set_if_version
set_if_version_answer key value expected ttl tags now written c = (
  λ e. rw ((==_iff (stored_version (lookup key c.memory)) expected).1 e) (
    refl,
    (
      (set key value ttl tags none now written c).0,
      lookup-set key value ttl tags none now written c,
      value-set key value ttl tags none now written c,
      version-set key value ttl tags none now written c,
    ),
  ),
  λ ne. rw (not_equal (stored_version (lookup key c.memory)) expected ne) refl,
)

-- When the calls are made: two that set the key, one that removes it, and one that sets it again.
pub record CallTimes : Type 0 where
  pub first : ℕ
  pub second : ℕ
  pub removal : ℕ
  pub again : ℕ

module _ (key : String) (a b x : Json) (at : CallTimes) (written : Bool) (c : Store) where
  -- The key is set twice, then removed, then set again, without an age each time.
  abbrev pub set_once : Store
  set_once = (set key a none none none at.first written c).1

  abbrev pub set_twice : Store
  set_twice = (set key b none none none at.second written set_once).1

  abbrev pub set_anew : Store
  set_anew =
      (set key x none none none at.again written (remove key at.removal written set_twice).1).1

  -- A key that the store did not have is set twice, the second time before the default age has passed,
  -- removed, and set again, without an age of its own each time: the version that is read of its new entry is the one that was read of the
  -- removed one, each read before its entry expires, and a `set_if_version` for the removed one, made
  -- at any time, succeeds on the new one.
  pub version_again :
      (now later cas : ℕ)
      → lookup key c.memory ≡ none
      → at.second ≤ at.first + c.default_ttl
      → now ≤ at.second + c.default_ttl
      → later ≤ at.again + c.default_ttl
      → (y : Json)
      → (version_for key now set_twice ≡ version_for key later set_anew)
        × (version_for key now set_twice ≡ some (count_of c.agent_id c.vv + 2))
        × ((set_if_version key y (count_of c.agent_id c.vv + 2) none none cas written set_anew).0
            ≡ true)
  version_again now later cas absent alive h h' y = (
    second ∙ sym third,
    second,
    ((set_if_version_answer key y (count_of c.agent_id c.vv + 2) none none cas written set_anew).0
        (rw (lookup-set, anew) refl)).0,
  )
    where
      entry :
          live at.second (lookup key set_once.memory)
          ≡ some (set key a none none none at.first written c).0
      entry = live-set key a at.first at.second written c alive

      once : (set key a none none none at.first written c).0.version ≡ count_of c.agent_id c.vv + 1
      once = rw (version-set, absent) refl

      twice :
          (set key b none none none at.second written set_once).0.version
          ≡ count_of c.agent_id c.vv + 2
      twice = rw (version-set, entry, once) (omega arith)

      anew :
          (set key x none none none at.again written
            (remove key at.removal written set_twice).1).0.version
          ≡ count_of c.agent_id c.vv + 2
      anew =
          rw (version-set, lookup-remove, count-remove, count-set, entry, count-set, absent)
            (omega arith)

      second : version_for key now set_twice ≡ some (count_of c.agent_id c.vv + 2)
      second =
          version_for-set key b at.second now written set_once (rw default_ttl-set h)
          ∙ ap some twice

      third : version_for key later set_anew ≡ some (count_of c.agent_id c.vv + 2)
      third =
          version_for-set key x at.again later written (remove key at.removal written set_twice).1
            (rw (default_ttl-remove, default_ttl-set, default_ttl-set) h')
          ∙ ap some anew
