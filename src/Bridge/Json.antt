-- ===== src/Bridge/Json.antt =====
-- The JSON values that pkg/bridge hands to encoding/json: `map[string]interface{}` literals. A Go map
-- has no order, so the order of the fields is the one of the literal.
use foxbridge.Common.{ℕ, String, Bool, List, [], ◌∷◌}

mutual
  pub data Json : Type 0 where
    null : Json
    flag : Bool → Json
    num : ℕ → Json
    str : String → Json
    -- a value that is passed on as it came
    raw : String → Json
    arr : Items → Json
    obj : Fields → Json

  pub data Items : Type 0 where
    no_items : Items
    item : Json → Items → Items

  pub data Fields : Type 0 where
    no_fields : Fields
    field : String → Json → Fields → Fields

abbrev fields_of : List (String × Json) → Fields
fields_of [] = no_fields
fields_of ((k, v) ∷ l) = field k v (fields_of l)

abbrev items_of : List Json → Items
items_of [] = no_items
items_of (v ∷ l) = item v (items_of l)

abbrev pub object : List (String × Json) → Json
object l = obj (fields_of l)

abbrev pub array : List Json → Json
array l = arr (items_of l)
