-- ===== src/SharedContext/Examples.antt =====
-- Runs of the shared context, and its theorems at concrete stores.
use rann_agent.Prelude.{◌+◌, String, ◌≡◌, ◌≢◌, ◌↔◌, refl, true, false, none, some, [], ◌∷◌, arith}
use rann_agent.Dict.{lookup, Distinct, has_key}
use rann_agent.Json.{num, null}
use rann_agent.SharedContext.Vector.{Vector, happened_before, count_of}
use rann_agent.SharedContext.Entry.{ContextEntry}
use rann_agent.SharedContext.Store.{
  Store, new_store, persist, live, set_if_version, stored_version, version_for,
}
use rann_agent.SharedContext.Order.{IsBefore, happened_before_exact}
use rann_agent.SharedContext.Sets.{next_version}
use rann_agent.SharedContext.Cas.{
  set_if_version_answer, version_again, set_twice, set_anew, CallTimes,
}
use rann_agent.SharedContext.Reload.{new_store-persist}

abbrev one : Vector
one = ("a", 1) ∷ ("b", 2) ∷ []

abbrev two : Vector
two = ("b", 3) ∷ ("a", 1) ∷ []

one_before_two : happened_before one two ≡ true
unfolding happened_before lookup
one_before_two = refl

happened_before_exact_example : (happened_before one two ≡ true) ↔ IsBefore one two
happened_before_exact_example = happened_before_exact one two

two-Distinct : Distinct two
unfolding has_key lookup
two-Distinct = (refl, (refl, tt))

abbrev entry : ContextEntry
entry = record {
  key = "k";
  value = num 1;
  version = 4;
  created_at = 0;
  updated_at = 0;
  ttl = some 10;
  owner_agent_id = "ann";
  tags = "t" ∷ [];
  access_count = 0;
}

abbrev store : Store
store = record {
  default_ttl = 60;
  memory = ("k", entry) ∷ [];
  vv = ("me", 4) ∷ [];
  agent_id = "me";
  file = none;
}

empty_starts : new_store 60 "me" 5 none ≡ record store { memory = []; vv = [] }
unfolding new_store
empty_starts = refl

set_if_version_answer_example :
    (stored_version (lookup "k" store.memory) ≡ 4
      → ((set_if_version "k" null 4 none none 5 true store).0 ≡ true)
        × ((e : ContextEntry) × (lookup "k"
                (set_if_version "k" null 4 none none 5 true store).1.memory
              ≡ some e)
            × (e.value ≡ null)
            × (e.version
                ≡ next_version (count_of "me" store.vv) (live 5 (lookup "k" store.memory)))))
    × ((stored_version (lookup "k" store.memory) ≢ 4)
        → set_if_version "k" null 4 none none 5 true store ≡ (false, store))
set_if_version_answer_example = set_if_version_answer "k" null 4 none none 5 true store

absent : lookup "new" store.memory ≡ none
unfolding lookup
absent = refl

abbrev call_times : CallTimes
call_times = record { first = 5; second = 6; removal = 8; again = 9 }

version_again_example :
    (version_for "new" 7 (set_twice "new" null (num 1) (num 2) call_times true store)
      ≡ version_for "new" 10 (set_anew "new" null (num 1) (num 2) call_times true store))
    × (version_for "new" 7 (set_twice "new" null (num 1) (num 2) call_times true store)
        ≡ some (count_of "me" store.vv + 2))
    × ((set_if_version "new"
          (num 3)
          (count_of "me" store.vv + 2)
          none
          none
          11
          true
          (set_anew "new" null (num 1) (num 2) call_times true store)).0
        ≡ true)
version_again_example =
    version_again "new" null (num 1) (num 2) call_times true store 7 10 11 absent (omega arith)
      (omega arith) (omega arith) (num 3)

store_Distinct : Distinct store.memory
unfolding has_key lookup
store_Distinct = (refl, tt)

new_store-persist_example :
    ((k : String)
      → lookup k (new_store 60 "you" 5 (persist 5 true store).file).memory
        ≡ live 5 (lookup k store.memory))
    × ((new_store 60 "you" 5 (persist 5 true store).file).vv ≡ store.vv)
new_store-persist_example = new_store-persist 5 60 "you" store store_Distinct
