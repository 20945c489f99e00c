-- ===== src/Json.antt =====
-- JSON values, as Python's `json` and pydantic's `model_dump` give them. A dict is an object; a number
-- that is no natural number is kept by its `repr`.
use acp_test.Base.{
  ℕ, String, Bool, true, false, not, ◌||◌, ◌==◌, Option, none, some, List, [], ◌∷◌, ◌is◌,
  if◌then◌else◌,
}

mutual
  pub data Value : Type 0 where
    null : Value
    bool : Bool → Value
    int : ℕ → Value
    literal : String → Value
    str : String → Value
    arr : Items → Value
    obj : Fields → Value

  pub data Fields : Type 0 where
    end : Fields
    field : String → Value → Fields → Fields

  pub data Items : Type 0 where
    nil : Items
    cons : Value → Items → Items

-- An object written out, key by key.
abbrev pub fields : List (String × Value) → Fields
fields [] = end
fields ((k, v) ∷ l) = field k v (fields l)

abbrev pub items : List Value → Items
items [] = nil
items (v ∷ l) = cons v (items l)

-- value.get(key)
abbrev pub get_field : String → Fields → Option Value
get_field k end = none
get_field k (field j v rest) = if j is k then some v else get_field k rest

-- An optional text: None is null.
abbrev pub opt_str : Option String → Value
opt_str none = null
opt_str (some s) = str s

-- {**fields, key: value}
abbrev pub set_field : String → Value → Fields → Fields
set_field k v end = field k v end
set_field k v (field j w rest) = if j is k then field j v rest else field j w (set_field k v rest)

-- fields.get(key), where a missing key and null are both None
abbrev pub get_or_null : String → Fields → Value
get_or_null k end = null
get_or_null k (field j v rest) = if j is k then v else get_or_null k rest

abbrev pub is_null : Value → Bool
is_null null = true
is_null _ = false

-- bool(value)
abbrev pub is_truthy : Value → Bool
is_truthy null = false
is_truthy (bool b) = b
is_truthy (int n) = not (n == 0)
is_truthy (literal s) = not (s is "0.0" || s is "-0.0")
is_truthy (str s) = not (s is "")
is_truthy (arr nil) = false
is_truthy (arr (cons v vs)) = true
is_truthy (obj end) = false
is_truthy (obj (field k v rest)) = true

-- value == text
abbrev pub is_str : Value → String → Bool
is_str (str s) t = s is t
is_str _ t = false

abbrev pub is_true : Value → Bool
is_true (bool b) = b
is_true _ = false

-- str(value): a text is itself, and `show` is Python's `str` of the other values.
abbrev pub str_of : (Value → String) → Value → String
str_of show (str s) = s
str_of show v = show v
