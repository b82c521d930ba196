-- ===== src/Py/Json.antt =====
-- JSON values, Python dicts of them, and the values that a dynamically typed argument may take.
pub mod Dumps
pub mod Sorting
use secunda_test.Base.{
  Bool, true, false, [], ◌∷◌, ltb, Option, none, some, if◌then◌else◌, Text, text_eq, lit,
}
use secunda_test.Py.Numbers.{ℤ}
use secunda_test.Py.Decimal.{Decimal, finite, infinity, nan}
use secunda_test.Py.Datetime.{Datetime}

-- A float is kept by its `repr`. `Fields` are the entries of a dict, in insertion order.
mutual
  pub data Json : Type 0 where
    null : Json
    bool : Bool → Json
    int : ℤ → Json
    float : Text → Json
    str : Text → Json
    arr : Items → Json
    obj : Fields → Json

  pub data Items : Type 0 where
    nil : Items
    cons : Json → Items → Items

  pub data Fields : Type 0 where
    end : Fields
    field : Text → Json → Fields → Fields

-- `d.get(key)`
unfoldable pub get_field : Text → Fields → Option Json
get_field k end = none
get_field k (field j v fs) = if text_eq k j then some v else get_field k fs

-- What may be passed where the annotation says `str`, `Decimal`, `dict` or `datetime`; any other
-- value is known by the name of its class and its truth.
pub data PyValue : Type 0 where
  none_value : PyValue
  decimal : Decimal → PyValue
  string : Text → PyValue
  dict : Fields → PyValue
  datetime : Datetime → PyValue
  other : Text → Bool → PyValue

-- `type(value).__name__`
unfoldable pub type_name : PyValue → Text
type_name none_value = lit "NoneType"
type_name (decimal d) = lit "Decimal"
type_name (string s) = lit "str"
type_name (dict fs) = lit "dict"
type_name (datetime v) = lit "datetime"
type_name (other name truth) = name

-- `bool(value)`
unfoldable pub is_truthy : PyValue → Bool
is_truthy none_value = false
is_truthy (decimal (finite s c e)) = ltb 0 c
is_truthy (decimal (infinity s)) = true
is_truthy (decimal (nan s)) = true
is_truthy (string []) = false
is_truthy (string (c ∷ s)) = true
is_truthy (dict end) = false
is_truthy (dict (field k v fs)) = true
is_truthy (datetime v) = true
is_truthy (other name truth) = truth
