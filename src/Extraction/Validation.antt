-- ===== src/Extraction/Validation.antt =====
-- `CustomerRequest` of talap/ai/customer_request.py: the validation of a JSON object. An error is a
-- ValidationError; what converts to `int` is a parameter.
use talap_ml.Common.{
  ℕ, Bool, true, ◌&&◌, ◌||◌, Option, none, some, List, [], ◌∷◌, any, leb, if◌then◌else◌, ok, err,
  ◌>>=◌,
}
use talap_ml.Common.Int.{ℤ, pos}
use talap_ml.Common.Text.{Text, text, text_eq, is_empty, strip}
use talap_ml.Common.Pydantic.{Validated, str_value}
use talap_ml.Common.Json.{Json, null, string, Fields, end, field, find_field, as_object, as_string}
use talap_ml.Recommendations.{
  Intent, Language, CustomerRequest, product_search, handoff, unknown_intent, kk, ru, mixed,
  unknown_language,
}

abbrev pub field_names : List Text
field_names =
    text "intent"
    ∷ text "language"
    ∷ text "category"
    ∷ text "query_text"
    ∷ text "attributes"
    ∷ text "budget_max_kzt"
    ∷ text "quantity"
    ∷ text "missing_field"
    ∷ []

-- `extra="forbid"`
unfoldable pub has_known_keys : Fields → Bool
has_known_keys end = true
has_known_keys (field key value rest) = any (text_eq key) field_names && has_known_keys rest

unfoldable pub intent_of : Option Json → Validated Intent
intent_of (some (string s)) =
    if text_eq s (text "product_search")
    then ok product_search
    else if text_eq s (text "handoff")
    then ok handoff
    else if text_eq s (text "unknown")
    then ok unknown_intent
    else err tt
intent_of _ = err tt

unfoldable pub language_of : Option Json → Validated Language
language_of (some (string s)) =
    if text_eq s (text "kk")
    then ok kk
    else if text_eq s (text "ru")
    then ok ru
    else if text_eq s (text "mixed")
    then ok mixed
    else if text_eq s (text "unknown")
    then ok unknown_language
    else err tt
language_of _ = err tt

-- `str | None`, where a blank text becomes None before pydantic reads it
unfoldable pub optional_text : Option Json → Validated (Option Text)
optional_text none = ok none
optional_text (some null) = ok none
optional_text (some (string s)) =
    if is_empty (strip s) then ok none else (do value ← str_value s; ok (some value))
optional_text _ = err tt

-- a text that is not blank
unfoldable pub non_blank_text : Option Json → Validated Text
non_blank_text (some (string s)) = do
  value ← str_value s
  if is_empty (strip value) then err tt else ok value
non_blank_text _ = err tt

-- `d[key] = value`
unfoldable pub set_item : Text → Text → List (Text × Text) → List (Text × Text)
set_item key value [] = (key, value) ∷ []
set_item key value ((k, v) ∷ items) =
    if text_eq k key then (k, value) ∷ items else (k, v) ∷ set_item key value items

abbrev pub is_blank_item : Text × Text → Bool
is_blank_item (key, value) = is_empty (strip key) || is_empty (strip value)

-- the items as pydantic reads them, after those that are there already
unfoldable pub attributes_onto : List (Text × Text) → Fields → Validated (List (Text × Text))
attributes_onto items end = ok items
attributes_onto items (field key value rest) = do
  s ← as_string tt value
  name ← str_value key
  item ← str_value s
  attributes_onto (set_item name item items) rest

unfoldable pub attributes_of : Option Json → Validated (List (Text × Text))
attributes_of none = ok []
attributes_of (some value) = do
  fields ← as_object tt value
  items ← attributes_onto [] fields
  if any is_blank_item items then err tt else ok items

module _ (lax_int : Json → Option ℤ) where
  -- `int | None` with a lower bound
  unfoldable pub optional_number : ℕ → Option Json → Validated (Option ℕ)
  optional_number least none = ok none
  optional_number least (some null) = ok none
  optional_number least (some value) = elim (lax_int value) [
    | some (pos n) ↦ if leb least n then ok (some n) else err tt
    | _ ↦ err tt
  ]

  -- `CustomerRequest(**data)`
  unfoldable pub customer_request : Fields → Validated CustomerRequest
  customer_request data_fields = do
    intent ← intent_of (find_field (text "intent") data_fields)
    language ← language_of (find_field (text "language") data_fields)
    category ← optional_text (find_field (text "category") data_fields)
    query_text ← non_blank_text (find_field (text "query_text") data_fields)
    attributes ← attributes_of (find_field (text "attributes") data_fields)
    budget_max_kzt ← optional_number 0 (find_field (text "budget_max_kzt") data_fields)
    quantity ← optional_number 1 (find_field (text "quantity") data_fields)
    missing_field ← optional_text (find_field (text "missing_field") data_fields)
    let request : CustomerRequest = record {
      intent = intent;
      language = language;
      category = category;
      query_text = query_text;
      attributes = attributes;
      budget_max_kzt = budget_max_kzt;
      quantity = quantity;
      missing_field = missing_field;
    }
    if has_known_keys data_fields then ok request else err tt
