-- ===== src/SharedContext/Entry.antt =====
-- `ContextEntry` of rann_agent/orchestration/shared_context.py and its dictionary. Times and ages are
-- microseconds; a value is what JSON can write.
use rann_agent.Prelude.{
  ℕ, ◌+◌, String, ◌≡◌, refl, Bool, false, Option, none, some, List, [], ◌∷◌, ltb, arith,
}
use rann_agent.Json.{
  Json, null, num, str, arr, obj, Items, nil, cons, end, field, get_field, as_str, as_obj, num_of,
  items_of,
}
use rann_agent.State.Record.{◌>>=◌}

pub record ContextEntry : Type 0 where
  pub key : String
  pub value : Json
  pub version : ℕ
  pub created_at : ℕ
  pub updated_at : ℕ
  pub ttl : Option ℕ
  pub owner_agent_id : String
  pub tags : List String
  pub access_count : ℕ

abbrev pub expired_at : ℕ → ℕ → Option ℕ → Bool
expired_at now updated none = false
expired_at now updated (some ttl) = ltb (updated + ttl) now

-- `is_expired`
unfoldable pub is_expired : ℕ → ContextEntry → Bool
is_expired now e = expired_at now e.updated_at e.ttl

abbrev opt_num : Option ℕ → Json
opt_num none = null
opt_num (some n) = num n

-- `d.get("ttl")`
abbrev opt_num_of : Option Json → Option (Option ℕ)
opt_num_of none = some none
opt_num_of (some null) = some none
opt_num_of (some (num n)) = some (some n)
opt_num_of (some _) = none

abbrev as_num : Json → Option ℕ
as_num (num n) = some n
as_num _ = none

unfoldable pub texts_to_items : List String → Items
texts_to_items [] = nil
texts_to_items (t ∷ ts) = cons (str t) (texts_to_items ts)

unfoldable pub texts_from_items : Items → Option (List String)
unfolding as_str
texts_from_items nil = some []
texts_from_items (cons j js) = do t ← as_str j; ts ← texts_from_items js; some (t ∷ ts)

-- `to_dict`
unfoldable pub entry_to_dict : ContextEntry → Json
unfolding texts_to_items
entry_to_dict e = obj (
    field "key" (str e.key) (
      field "value" e.value (
        field "version" (num e.version) (
          field "created_at" (num e.created_at) (
            field "updated_at" (num e.updated_at) (
              field "ttl" (opt_num e.ttl) (
                field "owner_agent_id" (str e.owner_agent_id) (
                  field "tags" (arr (texts_to_items e.tags))
                    (field "access_count" (num e.access_count) end)))))))))

-- `from_dict`; `none` is the exception that it raises.
unfoldable pub entry_from_dict : Json → Option ContextEntry
unfolding get_field as_str as_obj texts_from_items
entry_from_dict j = do
  fs ← as_obj j
  key_json ← get_field "key" fs
  key ← as_str key_json
  value ← get_field "value" fs
  version_json ← get_field "version" fs
  version ← as_num version_json
  created_json ← get_field "created_at" fs
  created_at ← as_num created_json
  updated_json ← get_field "updated_at" fs
  updated_at ← as_num updated_json
  ttl ← opt_num_of (get_field "ttl" fs)
  owner_json ← get_field "owner_agent_id" fs
  owner_agent_id ← as_str owner_json
  items ← items_of (get_field "tags" fs)
  tags ← texts_from_items items
  access_count ← num_of (get_field "access_count" fs)
  some (record {
    key = key;
    value = value;
    version = version;
    created_at = created_at;
    updated_at = updated_at;
    ttl = ttl;
    owner_agent_id = owner_agent_id;
    tags = tags;
    access_count = access_count;
  })

texts_from_items-texts_to_items :
    (ts : List String) → texts_from_items (texts_to_items ts) ≡ some ts
unfolding texts_from_items texts_to_items as_str
texts_from_items-texts_to_items [] = refl
texts_from_items-texts_to_items (t ∷ ts) = rw (texts_from_items-texts_to_items ts) refl

-- Every entry is read back from its dictionary as it was.
pub entry_from_dict-entry_to_dict : (e : ContextEntry) → entry_from_dict (entry_to_dict e) ≡ some e
unfolding entry_from_dict entry_to_dict get_field as_str as_obj
entry_from_dict-entry_to_dict e = ground (arith, texts_from_items-texts_to_items e.tags)
