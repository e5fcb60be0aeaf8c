-- ===== src/Json.antt =====
-- `serde_json::Value`, its maps, and the `json!` macro.
use ai_channel.Prelude.{ℕ, Bool, Option, none, some, List, [], ◌∷◌, if◌then◌else◌}
use ai_channel.Prelude.Order.{Ordering}
use ai_channel.Prelude.Text.{Text, text_eq, compare_text}

-- `serde_json::Number`: an unsigned or a negative integer, or a float by its bits.
pub data Number : Type 0 where
  pos_int : ℕ → Number
  neg_int : ℕ → Number
  float : ℕ → Number

mutual
  pub data Value : Type 0 where
    null : Value
    bool : Bool → Value
    number : Number → Value
    string : Text → Value
    array : Items → Value
    object : Fields → Value

  pub data Items : Type 0 where
    nil : Items
    cons : Value → Items → Items

  -- The entries of a map in the order of their keys.
  pub data Fields : Type 0 where
    end : Fields
    field : Text → Value → Fields → Fields

-- `Map::insert`: a key that is there gets the new value.
unfoldable pub map_insert : Text → Value → Fields → Fields
map_insert k v end = field k v end
map_insert k v (field j w fs) = elim (compare_text k j) [
  | Ordering.lt ↦ field k v (field j w fs)
  | Ordering.eq ↦ field j v fs
  | Ordering.gt ↦ field j w (map_insert k v fs)
]

-- `Map::get`
unfoldable pub map_get : Text → Fields → Option Value
map_get k end = none
map_get k (field j v fs) = if text_eq j k then some v else map_get k fs

-- `Value::get` with a key
unfoldable pub value_get : Text → Value → Option Value
unfolding map_get
value_get k (object fs) = map_get k fs
value_get k _ = none

-- `Value::as_str`
abbrev pub as_str : Value → Option Text
as_str (string s) = some s
as_str _ = none

-- `Value::as_object`
abbrev pub as_object : Value → Option Fields
as_object (object fs) = some fs
as_object _ = none

insert_entries : Fields → List (Text × Value) → Fields
insert_entries fs [] = fs
insert_entries fs ((k, v) ∷ entries) = insert_entries (map_insert k v fs) entries

-- `json!({ k: v, ... })`
unfoldable pub json_object : List (Text × Value) → Value
unfolding insert_entries map_insert
json_object entries = object (insert_entries end entries)

abbrev items_of : List Value → Items
items_of [] = nil
items_of (v ∷ vs) = cons v (items_of vs)

-- `json!` of a `Vec`
unfoldable pub json_array : List Value → Value
json_array vs = array (items_of vs)
