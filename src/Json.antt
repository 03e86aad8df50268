-- ===== src/Json.antt =====
-- The values of `serde_json`, with the readers that the program calls on them. An integer is what
-- `serde_json` keeps exactly (between -2^63 and 2^64 - 1); any other number is kept as a float, of
-- which the program reads nothing.
use open_ai_lb.Prelude.{
  ℕ, String, Bool, Option, none, some, List, [], ◌∷◌, ◌==◌, if◌then◌else◌, and_then,
}
use open_ai_lb.Prelude.Int.{ℤ, pos, in_i64}

mutual
  pub data Value : Type 0 where
    null : Value
    boolean : Bool → Value
    integer : ℤ → Value
    float : String → Value
    string : String → Value
    array : Items → Value
    object : Fields → Value

  pub data Items : Type 0 where
    nil : Items
    cons : Value → Items → Items

  pub data Fields : Type 0 where
    end : Fields
    field : String → Value → Fields → Fields

abbrev pub items : Items → List Value
items nil = []
items (cons v vs) = v ∷ items vs

-- `Map::get`, `insert`, `remove` and `entry().or_insert` of an object.
unfoldable pub lookup : Fields → String → Option Value
lookup end key = none
lookup (field k v fs) key = if k == key then some v else lookup fs key

unfoldable pub insert : Fields → String → Value → Fields
insert end key w = field key w end
insert (field k v fs) key w = if k == key then field key w fs else field k v (insert fs key w)

unfoldable pub delete : Fields → String → Fields
delete end key = end
delete (field k v fs) key = let rest = delete fs key in if k == key then rest else field k v rest

unfoldable pub or_insert : Fields → String → Value → Fields
or_insert end key w = field key w end
or_insert (field k v fs) key w = if k == key then field k v fs else field k v (or_insert fs key w)

-- `Value::get` with a text, and `pointer` along names that are no array index.
abbrev pub member : Value → String → Option Value
member (object fs) key = lookup fs key
member _ key = none

abbrev pub pointer : Value → List String → Option Value
pointer v [] = some v
pointer v (key ∷ keys) = and_then (member v key) (λ w. pointer w keys)

abbrev pub as_str : Value → Option String
as_str (string s) = some s
as_str _ = none

abbrev pub as_bool : Value → Option Bool
as_bool (boolean b) = some b
as_bool _ = none

abbrev pub as_i64 : Value → Option ℤ
as_i64 (integer z) = if in_i64 z then some z else none
as_i64 _ = none

abbrev pub as_u64 : Value → Option ℕ
as_u64 (integer (pos n)) = some n
as_u64 _ = none

abbrev pub as_array : Value → Option (List Value)
as_array (array vs) = some (items vs)
as_array _ = none

abbrev pub as_object : Value → Option Fields
as_object (object fs) = some fs
as_object _ = none
