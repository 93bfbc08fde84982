-- ===== src/Json.antt =====
-- The values that the program puts into dictionaries of its own making (`to_dict`, event metadata)
-- and writes to disk by `json.dumps`. `Fields` is a dictionary, `Items` a list.
-- `IsoFormat` is what the program relies on of `datetime.isoformat` and `datetime.fromisoformat`.
pub mod Sample
use rann_agent.Prelude.{ℕ, String, ◌≡◌, Bool, false, Option, none, some, str_eq, if◌then◌else◌}

mutual
  pub data Json : Type 0 where
    null : Json
    bool : Bool → Json
    num : ℕ → Json
    str : String → Json
    arr : Items → Json
    obj : Fields → Json

  pub data Items : Type 0 where
    nil : Items
    cons : Json → Items → Items

  pub data Fields : Type 0 where
    end : Fields
    field : String → Json → Fields → Fields

-- data.get(k)
unfoldable pub get_field : String → Fields → Option Json
get_field k end = none
get_field k (field j v fs) = if str_eq j k then some v else get_field k fs

-- `None` or a text
unfoldable pub opt_str : Option String → Json
opt_str none = null
opt_str (some s) = str s

unfoldable pub as_str : Json → Option String
as_str (str s) = some s
as_str _ = none

unfoldable pub as_obj : Json → Option Fields
as_obj (obj fs) = some fs
as_obj _ = none

unfoldable pub as_arr : Json → Option Items
as_arr (arr xs) = some xs
as_arr _ = none

-- A time is its number of microseconds.
pub record IsoFormat : Type 0 where
  pub isoformat : ℕ → String
  pub fromisoformat : String → Option ℕ
  pub fromisoformat-isoformat : (t : ℕ) → fromisoformat (isoformat t) ≡ some t
  pub isoformat_nonempty : (t : ℕ) → str_eq (isoformat t) "" ≡ false

-- `data.get(k)` where a text or `None` stands, or nothing
abbrev pub opt_str_of : Option Json → Option (Option String)
opt_str_of none = some none
opt_str_of (some null) = some none
opt_str_of (some (str s)) = some (some s)
opt_str_of (some _) = none

-- `data.get(k, {})`
abbrev pub fields_of : Option Json → Option Fields
fields_of none = some end
fields_of (some (obj fs)) = some fs
fields_of (some _) = none

-- `data.get(k, [])`
abbrev pub items_of : Option Json → Option Items
items_of none = some nil
items_of (some (arr xs)) = some xs
items_of (some _) = none

-- `data.get(k, 0)`
abbrev pub num_of : Option Json → Option ℕ
num_of none = some 0
num_of (some (num n)) = some n
num_of (some _) = none
