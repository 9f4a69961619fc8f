-- ===== src/Json.antt =====
-- The JSON values of request and reply bodies, as Python reads them, and the tests of them that
-- app/gateway.py and app/model_protocols.py share. `decimal 0` is 0.0.
use opsark_admin.Common.{
  Bool, true, false, ◌&&◌, not, Option, none, some, List, [], ◌∷◌, ℕ, String, any, if◌then◌else◌,
}
use opsark_admin.Common.Int.{ℤ}
use opsark_admin.Accounts.{text_eq}

-- A `decimal` is a number with a fraction or an exponent.
mutual
  pub data Json : Type 0 where
    null : Json
    boolean : Bool → Json
    integer : ℤ → Json
    decimal : ℕ → Json
    str : String → Json
    array : Items → Json
    object : Fields → Json

  pub data Items : Type 0 where
    nil : Items
    item : Json → Items → Items

  pub data Fields : Type 0 where
    end : Fields
    field : String → Json → Fields → Fields

abbrev pub find_field : String → Fields → Option Json
find_field key end = none
find_field key (field name value rest) =
    if text_eq name key then some value else find_field key rest

-- `body.get(key)`, where a value that is no dictionary has no key.
abbrev pub get_key : String → Json → Option Json
get_key key (object fields) = find_field key fields
get_key key _ = none

abbrev pub is_member : String → List String → Bool
is_member name = any (text_eq name)

-- `not set(body) - allowed`
abbrev pub keys_within : List String → Fields → Bool
keys_within allowed end = true
keys_within allowed (field name value rest) = is_member name allowed && keys_within allowed rest

-- `not keys - set(body)`
abbrev pub has_keys : List String → Fields → Bool
has_keys [] fields = true
has_keys (key ∷ keys) fields = elim (find_field key fields) [
  | none ↦ false
  | some value ↦ has_keys keys fields
]

abbrev pub is_str : Option Json → Bool
is_str (some (str s)) = true
is_str _ = false

abbrev pub is_object : Option Json → Bool
is_object (some (object fields)) = true
is_object _ = false

-- `isinstance(value, list) and value`
abbrev pub is_filled_array : Option Json → Bool
is_filled_array (some (array (item x xs))) = true
is_filled_array _ = false

-- `value in {...}`, for a value that is a text.
abbrev pub is_one_of : List String → Option Json → Bool
is_one_of names (some (str s)) = is_member s names
is_one_of names _ = false

-- A value that is no list and no dictionary can be looked up in a set; the others raise a TypeError.
abbrev pub is_hashable : Option Json → Bool
is_hashable (some (array xs)) = false
is_hashable (some (object fields)) = false
is_hashable _ = true

abbrev pub is_there : Option Json → Bool
is_there none = false
is_there (some v) = true

-- `value is False`
abbrev pub is_false : Json → Bool
is_false (boolean b) = not b
is_false _ = false

-- `body.get(key, False) is False`
abbrev pub is_false_or_absent : Option Json → Bool
is_false_or_absent none = true
is_false_or_absent (some v) = is_false v

abbrev pub all_items : (Json → Bool) → Items → Bool
all_items p nil = true
all_items p (item x xs) = p x && all_items p xs
