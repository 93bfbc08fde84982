-- ===== src/SharedContext/Store.antt =====
-- `SharedContext` of rann_agent/orchestration/shared_context.py, without a database. `now` is what the
-- clock reads during a call, and `written` says whether the files can be written. The version vector is
-- also written to a file of its own, which nothing reads.
use rann_agent.Prelude.{
  ℕ, ◌+◌, ◌-◌, String, Bool, true, false, Option, none, some, List, [], ◌∷◌, ◌==◌, length, str_eq,
  anyb, allb, if◌then◌else◌,
}
use rann_agent.Dict.{Dict, lookup, has_key, insert, delete}
use rann_agent.Json.{Json, num, obj, Fields, end, field, get_field, fields_of}
use rann_agent.SharedContext.Vector.{Vector, count_of, increment, merge}
use rann_agent.SharedContext.Entry.{ContextEntry, is_expired, entry_to_dict, entry_from_dict}

-- `file` is the content of the state file, if there is one.
pub record Store : Type 0 where
  pub default_ttl : ℕ
  pub memory : Dict ContextEntry
  pub vv : Vector
  pub agent_id : String
  pub file : Option Json

-- `{k: v.to_dict() for k, v in self._memory.items() if not v.is_expired()}`
unfoldable pub memory_to_fields : ℕ → Dict ContextEntry → Fields
unfolding is_expired entry_to_dict
memory_to_fields now [] = end
memory_to_fields now ((k, e) ∷ d) =
    let rest = memory_to_fields now d in
    if is_expired now e then rest else field k (entry_to_dict e) rest

unfoldable pub vector_to_fields : Vector → Fields
vector_to_fields [] = end
vector_to_fields ((k, n) ∷ v) = field k (num n) (vector_to_fields v)

-- `_persist`; a failure is logged.
unfoldable pub persist : ℕ → Bool → Store → Store
unfolding memory_to_fields vector_to_fields
persist now written c =
    if written
    then record c {
      file = some (
          obj (
            field "memory" (obj (memory_to_fields now c.memory)) (
              field "version_vector" (obj (vector_to_fields c.vv))
                (field "saved_at" (num now) end))));
    }
    else c

-- An entry that is there and has not expired.
abbrev pub live : ℕ → Option ContextEntry → Option ContextEntry
live now none = none
live now (some e) = if is_expired now e then none else some e

abbrev counted : ContextEntry → ContextEntry
counted e = record e { access_count = e.access_count + 1 }

abbrev get_found : String → ℕ → Option ContextEntry → Store → Option ContextEntry × Store
get_found key now none c = (none, c)
get_found key now (some e) c =
    if is_expired now e
    then (none, record c { memory = delete key c.memory })
    else (some (counted e), record c { memory = insert key (counted e) c.memory })

-- `get_entry`
unfoldable pub get_entry : String → ℕ → Store → Option ContextEntry × Store
unfolding is_expired lookup insert delete
get_entry key now c = get_found key now (lookup key c.memory) c

abbrev value_or : Json → Option ContextEntry → Json
value_or default none = default
value_or default (some e) = e.value

-- `get`
unfoldable pub get : String → Json → ℕ → Store → Json × Store
unfolding get_entry
get key default now c = let (found, c') = get_entry key now c in (value_or default found, c')

abbrev version_of : Option ContextEntry → Option ℕ
version_of none = none
version_of (some e) = some e.version

-- `version_for`
unfoldable pub version_for : String → ℕ → Store → Option ℕ
unfolding is_expired lookup
version_for key now c = version_of (live now (lookup key c.memory))

-- `ttl if ttl is not None else self._default_ttl`
abbrev pub ttl_or : Option ℕ → ℕ → Option ℕ
ttl_or none default = some default
ttl_or (some ttl) default = some ttl

-- `x or y` for texts
abbrev pub owner_or : Option String → String → String
owner_or none old = old
owner_or (some owner) old = if str_eq owner "" then old else owner

abbrev pub tags_or : Option (List String) → List String → List String
tags_or none old = old
tags_or (some tags) old = tags

-- The entry that `set` makes over one that is there, and its effect where there is none.
abbrev pub update_entry :
    String
    → Json
    → Option ℕ
    → Option (List String)
    → Option String
    → ℕ
    → ContextEntry
    → Store
    → ContextEntry × Store
update_entry key value ttl tags owner now old c = (
  record {
    key = key;
    value = value;
    version = old.version + 1;
    created_at = old.created_at;
    updated_at = now;
    ttl = ttl_or ttl c.default_ttl;
    owner_agent_id = owner_or owner old.owner_agent_id;
    tags = tags_or tags old.tags;
    access_count = old.access_count;
  },
  c,
)

abbrev pub create_entry :
    String
    → Json
    → Option ℕ
    → Option (List String)
    → Option String
    → ℕ
    → Store
    → ContextEntry × Store
create_entry key value ttl tags owner now c =
    let vv' = increment c.agent_id c.vv in
    (
      record {
        key = key;
        value = value;
        version = count_of c.agent_id vv';
        created_at = now;
        updated_at = now;
        ttl = ttl_or ttl c.default_ttl;
        owner_agent_id = owner_or owner "unknown";
        tags = tags_or tags [];
        access_count = 0;
      },
      record c { vv = vv' },
    )

abbrev pub entry_for :
    String
    → Json
    → Option ℕ
    → Option (List String)
    → Option String
    → ℕ
    → Option ContextEntry
    → Store
    → ContextEntry × Store
entry_for key value ttl tags owner now none c = create_entry key value ttl tags owner now c
entry_for key value ttl tags owner now (some old) c =
    update_entry key value ttl tags owner now old c

-- `set`
unfoldable pub set :
    String
    → Json
    → Option ℕ
    → Option (List String)
    → Option String
    → ℕ
    → Bool
    → Store
    → ContextEntry × Store
unfolding is_expired lookup insert increment count_of persist
set key value ttl tags owner now written c =
    let (e, c') = entry_for key value ttl tags owner now (live now (lookup key c.memory)) c in
    (e, persist now written (record c' { memory = insert key e c'.memory }))

-- What `set_if_version` compares with, expired entries included; 0 where there is none.
abbrev pub stored_version : Option ContextEntry → ℕ
stored_version none = 0
stored_version (some e) = e.version

-- `set_if_version`
unfoldable pub set_if_version :
    String → Json → ℕ → Option ℕ → Option (List String) → ℕ → Bool → Store → Bool × Store
unfolding set lookup
set_if_version key value expected_version ttl tags now written c =
    if stored_version (lookup key c.memory) == expected_version
    then (true, (set key value ttl tags none now written c).1)
    else (false, c)

abbrev change_live :
    String → ℕ → Bool → (ContextEntry → ContextEntry) → Option ContextEntry → Store → Bool × Store
change_live key now written f none c = (false, c)
change_live key now written f (some e) c =
    (true, persist now written (record c { memory = insert key (f e) c.memory }))

-- `update_tags`
unfoldable pub update_tags : String → List String → ℕ → Bool → Store → Bool × Store
unfolding lookup insert is_expired persist
update_tags key tags now written c =
    change_live key now written (λ e. record e { tags = tags; access_count = e.access_count + 1 })
      (live now (lookup key c.memory)) c

-- `touch`
unfoldable pub touch : String → Option ℕ → ℕ → Bool → Store → Bool × Store
unfolding lookup insert is_expired persist
touch key ttl now written c =
    change_live key now written
      (λ e. record e {
        ttl = ttl_or ttl c.default_ttl;
        updated_at = now;
        access_count = e.access_count + 1;
      })
      (live now (lookup key c.memory)) c

-- `delete`
unfoldable pub remove : String → ℕ → Bool → Store → Bool × Store
unfolding has_key delete persist
remove key now written c =
    if has_key key c.memory
    then (true, persist now written (record c { memory = delete key c.memory }))
    else (false, c)

-- The loop of `delete_many` and how many keys it deleted.
unfoldable pub delete_all : List String → Dict ContextEntry → ℕ × Dict ContextEntry
unfolding has_key delete
delete_all [] d = (0, d)
delete_all (k ∷ ks) d =
    let (n, d') = delete_all ks (if has_key k d then delete k d else d) in
    ((if has_key k d then 1 else 0) + n, d')

-- `delete_many`
unfoldable pub delete_many : List String → ℕ → Bool → Store → ℕ × Store
unfolding delete_all persist
delete_many ks now written c =
    let (n, d) = delete_all ks c.memory in
    let c' = record c { memory = d } in (n, if n == 0 then c' else persist now written c')

-- The entries that another agent owns.
unfoldable pub not_owned : String → Dict ContextEntry → Dict ContextEntry
not_owned agent_id [] = []
not_owned agent_id ((k, e) ∷ d) =
    let rest = not_owned agent_id d in
    if str_eq e.owner_agent_id agent_id then rest else (k, e) ∷ rest

abbrev kept : Option String → Dict ContextEntry → Dict ContextEntry
kept none d = []
kept (some agent_id) d = not_owned agent_id d

-- `clear`
unfoldable pub clear : Option String → ℕ → Bool → Store → ℕ × Store
unfolding not_owned persist
clear agent_id now written c =
    let d = kept agent_id c.memory in
    let n = length c.memory - length d in
    let c' = record c { memory = d } in (n, if n == 0 then c' else persist now written c')

-- One entry of `atomic_set`: a new one has version 1.
abbrev atomic_entry : String → Json → Option ℕ → ℕ → Option ContextEntry → Store → ContextEntry
atomic_entry key value ttl now none c = record {
  key = key;
  value = value;
  version = 1;
  created_at = now;
  updated_at = now;
  ttl = ttl_or ttl c.default_ttl;
  owner_agent_id = "unknown";
  tags = [];
  access_count = 0;
}
atomic_entry key value ttl now (some old) c = record old {
  key = key;
  value = value;
  version = old.version + 1;
  updated_at = now;
  ttl = ttl_or ttl c.default_ttl;
}

unfoldable pub set_all : Dict Json → Option ℕ → ℕ → Store → Store
unfolding lookup insert is_expired
set_all [] ttl now c = c
set_all ((k, v) ∷ entries) ttl now c = set_all entries ttl now (record c {
  memory = insert k (atomic_entry k v ttl now (live now (lookup k c.memory)) c) c.memory;
})

-- `atomic_set`
unfoldable pub atomic_set : Dict Json → Option ℕ → ℕ → Bool → Store → Store
unfolding set_all persist
atomic_set entries ttl now written c = persist now written (set_all entries ttl now c)

-- `merge_version_vector`
unfoldable pub merge_version_vector : Vector → Store → Store
unfolding merge
merge_version_vector remote c = record c { vv = merge c.vv remote }

-- `find_by_tags`
abbrev tag_in : List String → String → Bool
tag_in tags t = anyb (λ u. str_eq u t) tags

unfoldable pub find_by_tags : List String → Bool → ℕ → Dict ContextEntry → Dict Json
unfolding is_expired
find_by_tags tags match_all now [] = []
find_by_tags tags match_all now ((k, e) ∷ d) =
    let rest = find_by_tags tags match_all now d in
    if is_expired now e
    then rest
    else if (if match_all then allb (tag_in e.tags) tags else anyb (tag_in e.tags) tags)
    then (k, e.value) ∷ rest
    else rest

-- The loop of `_load_from_disk` over the stored entries; it ends at one that is malformed, which is
-- logged, and the flag tells so.
abbrev keep_live : String → ℕ → ContextEntry → Dict ContextEntry → Dict ContextEntry
keep_live k now e d = if is_expired now e then d else insert k e d

abbrev load_next :
    Option ContextEntry
    → String
    → ℕ
    → (Dict ContextEntry → Bool × Dict ContextEntry)
    → Dict ContextEntry
    → Bool × Dict ContextEntry
load_next none k now rest d = (false, d)
load_next (some e) k now rest d = rest (keep_live k now e d)

unfoldable pub load_entries : ℕ → Fields → Dict ContextEntry → Bool × Dict ContextEntry
unfolding entry_from_dict is_expired insert
load_entries now end d = (true, d)
load_entries now (field k j fs) d = load_next (entry_from_dict j) k now (load_entries now fs) d

-- `VersionVector.from_dict`, whose values are counts.
unfoldable pub vector_from_fields : Fields → Vector
vector_from_fields end = []
vector_from_fields (field k (num n) fs) = (k, n) ∷ vector_from_fields fs
vector_from_fields (field k _ fs) = vector_from_fields fs

abbrev load_vector : Option Fields → Store → Store
load_vector none c = c
load_vector (some fs) c = record c { vv = vector_from_fields fs }

abbrev load_memory : ℕ → Fields → Option Fields → Store → Store
load_memory now document none c = c
load_memory now document (some fs) c =
    let (whole, d) = load_entries now fs c.memory in
    let c' = record c { memory = d } in
    if whole then load_vector (fields_of (get_field "version_vector" document)) c' else c'

abbrev load_document : ℕ → Option Json → Store → Store
load_document now none c = c
load_document now (some (obj document)) c =
    load_memory now document (fields_of (get_field "memory" document)) c
load_document now (some _) c = c

-- `SharedContext(persist_path, default_ttl)`, with `_load_from_disk`
unfoldable pub new_store : ℕ → String → ℕ → Option Json → Store
unfolding load_entries vector_from_fields get_field
new_store default_ttl agent_id now file =
    load_document now file
      (record { default_ttl = default_ttl; memory = []; vv = []; agent_id = agent_id; file = file })
