-- ===== src/Common/Json.antt =====
-- A JSON value as Python's `json` reads it, and the tests that the program makes of one.
use mathlib.Core.Bool.{Bool, true, false}
use mathlib.Core.Option.{Option, none, some}
use mathlib.Core.List.{List, [], ◌∷◌}
use talap_ml.Common.Tests.{if◌then◌else◌}
use talap_ml.Common.Outcome.{Result, ok, err}
use talap_ml.Common.Int.{ℤ}
use talap_ml.Common.Text.{Text, text_eq}

mutual
  pub data Json : Type 0 where
    null : Json
    boolean : Bool → Json
    integer : ℤ → Json
    -- a number with a fraction or an exponent, as it is written
    real : Text → Json
    string : Text → Json
    array : Items → Json
    object : Fields → Json

  pub data Items : Type 0 where
    nil : Items
    cons : Json → Items → Items

  pub data Fields : Type 0 where
    end : Fields
    field : Text → Json → Fields → Fields

-- the elements of a list
abbrev pub elements : Items → List Json
elements nil = []
elements (cons v vs) = v ∷ elements vs

-- `fields[key]`, none where the key is missing
abbrev pub find_field : Text → Fields → Option Json
find_field key end = none
find_field key (field k v rest) = if text_eq k key then some v else find_field key rest

abbrev pub or_null : Option Json → Json
or_null none = null
or_null (some v) = v

-- `fields.get(key)`
abbrev pub get : Text → Fields → Json
get key fields = or_null (find_field key fields)

-- `isinstance(value, Mapping)`, `isinstance(value, list)` and `isinstance(value, str)`, or the error
module _ {E : Type 0} (e : E) where
  abbrev pub as_object : Json → Result E Fields
  as_object (object fields) = ok fields
  as_object _ = err e

  abbrev pub as_list : Json → Result E (List Json)
  as_list (array items) = ok (elements items)
  as_list _ = err e

  abbrev pub as_string : Json → Result E Text
  as_string (string s) = ok s
  as_string _ = err e

-- `value is None`
abbrev pub is_null : Json → Bool
is_null null = true
is_null _ = false
