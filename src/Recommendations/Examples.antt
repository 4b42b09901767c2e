-- ===== src/Recommendations/Examples.antt =====
-- A customer with one displayed set, for talap/recommendations/service.py.
use talap_ml.Common.{
  ◌<◌, ◌+◌, ℕ, ◌-◌, ◌≤◌, ◌≡◌, ◌↔◌, refl, true, false, ◌&&◌, none, some, List, [], ◌∷◌, arith, ok,
  leb, if◌then◌else◌, length,
}
use talap_ml.Common.Int.{pos}
use talap_ml.Common.Text.{text, text_eq}
use talap_ml.Common.Decimal.{UnicodeDigits, max_str_digits, show}
use talap_ml.Recommendations.{
  RecommendationState, UnmetDemand, DisplayedProduct, CustomerRequest, product_search, kk, active,
  is_numeric_selection, store_recommendation_set, load_active_recommendation, snapshot_of,
  mark_recommendation_selected, persist_unmet_demand,
}
use talap_ml.Recommendations.Numeric.{is_numeric_selection_iff}
use talap_ml.Recommendations.Active.{
  HasOneActive, load-store_self, load-store_other, store-HasOneActive, load-mark,
}
use talap_ml.Recommendations.Demand.{HasUniqueSources, persist_unmet_demand-once}

is_digit_of_ascii : (d : ℕ) → d < 10 → ((leb 48 (48 + d) && leb (48 + d) 57)) ≡ true
is_digit_of_ascii d small = ground arith

decimal_of_ascii :
    (d : ℕ)
    → d < 10
    → (if leb 48 (48 + d) && leb (48 + d) 57 then some (48 + d - 48) else none) ≡ some d
decimal_of_ascii d small = ground arith

-- the digits of ASCII alone
abbrev ascii : UnicodeDigits
ascii = record {
  is_digit = λ c. leb 48 c && leb c 57;
  decimal = λ c. if leb 48 c && leb c 57 then some (c - 48) else none;
  ascii_is_digit = is_digit_of_ascii;
  ascii_decimal = decimal_of_ascii;
}

abbrev pub desk : DisplayedProduct
desk = record { product_id = none; name = some (text "Desk"); price_kzt = some 90000 }

abbrev pub shown_row : RecommendationState
shown_row = record {
  id = 21;
  channel = text "whatsapp";
  external_user_id = text "77010000000";
  displayed_products = desk ∷ [];
  status = active;
  selected_product_id = none;
  selected_index = none;
  source_message_id = some 70;
  updated_at = pos 5;
}

abbrev pub rows : List RecommendationState
rows = shown_row ∷ []

abbrev request : CustomerRequest
request = record {
  intent = product_search;
  language = kk;
  category = none;
  query_text = text "desk";
  attributes = [];
  budget_max_kzt = none;
  quantity = none;
  missing_field = none;
}

pub rows-HasOneActive : HasOneActive rows
rows-HasOneActive channel user = ground arith

finds_shown :
    load_active_recommendation (text "whatsapp") (text "77010000000") rows
    ≡ some (record { state_id = 21; displayed_products = desk ∷ [] })
unfolding load_active_recommendation snapshot_of text_eq
finds_shown = refl

another_customer : ¬ ((text "whatsapp" ≡ text "whatsapp") × (text "1" ≡ text "2"))
another_customer = λ (_, e). ground arith

is_numeric_selection_iff_example :
    (is_numeric_selection ascii (text "12") ≡ ok true)
    ↔ ((n : ℕ) × (text "12" ≡ show n) × (length (text "12") ≤ max_str_digits))
is_numeric_selection_iff_example = is_numeric_selection_iff ascii (text "12")

load-store_self_example :
    load_active_recommendation
      (text "whatsapp")
      (text "77010000000")
      (store_recommendation_set 22
        (pos 8)
        (text "whatsapp")
        (text "77010000000")
        (desk ∷ desk ∷ [])
        71
        (pos 8)
        rows).1
    ≡ some (record { state_id = 22; displayed_products = desk ∷ desk ∷ [] })
load-store_self_example =
    load-store_self 22 (pos 8) (text "whatsapp") (text "77010000000") (desk ∷ desk ∷ []) 71 (pos 8)
      rows

load-store_other_example :
    load_active_recommendation
      (text "whatsapp")
      (text "2")
      (store_recommendation_set 22
        (pos 8)
        (text "whatsapp")
        (text "1")
        (desk ∷ [])
        71
        (pos 8)
        rows).1
    ≡ load_active_recommendation (text "whatsapp") (text "2") rows
load-store_other_example =
    load-store_other 22 (pos 8) (text "whatsapp") (text "1") (desk ∷ []) 71 (pos 8) rows
      (text "whatsapp") (text "2") another_customer

store-HasOneActive_example :
    HasOneActive
      (store_recommendation_set 22
        (pos 8)
        (text "whatsapp")
        (text "77010000000")
        (desk ∷ [])
        71
        (pos 8)
        rows).1
store-HasOneActive_example =
    store-HasOneActive 22 (pos 8) (text "whatsapp") (text "77010000000") (desk ∷ []) 71 (pos 8) rows
      rows-HasOneActive

load-mark_example :
    load_active_recommendation
      (text "whatsapp")
      (text "77010000000")
      (mark_recommendation_selected 21 1 none (pos 9) rows)
    ≡ none
load-mark_example =
    load-mark (text "whatsapp") (text "77010000000")
      (record { state_id = 21; displayed_products = desk ∷ [] }) 1 none (pos 9) rows
      rows-HasOneActive finds_shown

abbrev once : List UnmetDemand
once = (persist_unmet_demand (text "whatsapp") (text "7701") 70 request []).1

persist_unmet_demand-once_example :
    HasUniqueSources once
    × (persist_unmet_demand (text "whatsapp") (text "7702") 70 request once ≡ (false, once))
persist_unmet_demand-once_example =
    persist_unmet_demand-once (text "whatsapp") (text "7701") 70 request [] (text "whatsapp")
      (text "7702") request tt
