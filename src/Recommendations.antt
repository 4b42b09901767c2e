-- ===== src/Recommendations.antt =====
-- talap/recommendations/service.py: displayed recommendation sets and unmet demand. The tables are
-- those of talap/db/models/recommendations.py, with the columns that the code uses.
pub mod Numeric
pub mod Active
pub mod Demand
pub mod Examples
use talap_ml.Common.{
  ℕ, Bool, true, false, ◌&&◌, Option, none, some, List, [], ◌∷◌, ◌++◌, map, any, select, first,
  ◌==◌, if◌then◌else◌, Result, ok, err,
}
use talap_ml.Common.Int.{ℤ}
use talap_ml.Common.Text.{Text, text, text_eq, is_empty, strip}
use talap_ml.Common.Decimal.{UnicodeDigits, isdigit, int_of, show}
use talap_ml.Common.Table.{Uuid, update_row}

pub data Intent : Type 0 where
  product_search handoff unknown_intent : Intent

pub data Language : Type 0 where
  kk ru mixed unknown_language : Language

-- talap/ai/customer_request.py
pub record CustomerRequest : Type 0 where
  pub intent : Intent
  pub language : Language
  pub category : Option Text
  pub query_text : Text
  pub attributes : List (Text × Text)
  pub budget_max_kzt : Option ℕ
  pub quantity : Option ℕ
  pub missing_field : Option Text

-- what is stored of a displayed product; a key may be missing from the JSON
pub record DisplayedProduct : Type 0 where
  pub product_id : Option Text
  pub name : Option Text
  pub price_kzt : Option ℕ

pub data RecommendationStatus : Type 0 where
  active selected superseded : RecommendationStatus

abbrev pub is_active : RecommendationStatus → Bool
is_active active = true
is_active _ = false

pub record RecommendationState : Type 0 where
  pub id : Uuid
  pub channel : Text
  pub external_user_id : Text
  pub displayed_products : List DisplayedProduct
  pub status : RecommendationStatus
  pub selected_product_id : Option Uuid
  pub selected_index : Option ℕ
  pub source_message_id : Option Uuid
  pub updated_at : ℤ

pub record UnmetDemand : Type 0 where
  pub channel : Text
  pub external_user_id : Text
  pub source_message_id : Uuid
  pub query_text : Text
  pub category : Option Text
  pub attributes : List (Text × Text)
  pub budget_max_kzt : Option ℕ
  pub quantity : Option ℕ
  pub language : Language

pub record ActiveRecommendation : Type 0 where
  pub state_id : Uuid
  pub displayed_products : List DisplayedProduct

-- `text.isdigit() and text == str(int(text))`; the `int` may raise ValueError
unfoldable pub is_numeric_selection : UnicodeDigits → Text → Result (Unit {0}) Bool
is_numeric_selection unicode s =
    if isdigit unicode s
    then elim (int_of unicode s) [ none ↦ err tt | some n ↦ ok (text_eq s (show n)) ]
    else ok false

-- `manager_whatsapp_link()`, of the setting
unfoldable pub manager_whatsapp_link : Option Text → Option Text
unfolding strip
manager_whatsapp_link none = none
manager_whatsapp_link (some value) =
    let stripped = strip value in if is_empty stripped then none else some stripped

abbrev pub unmet_demand_text_ru : Text
unmet_demand_text_ru =
    text
      "К сожалению, подходящих товаров сейчас не нашли. Мы сохранили ваш запрос, чтобы магазин увидел этот спрос."

abbrev pub unmet_demand_text_kk : Text
unmet_demand_text_kk =
    text
      "Өкінішке қарай, қазір сәйкес тауар табылмады. Дүкен бұл сұранысты көруі үшін оны сақтап қойдық."

unfoldable pub unmet_demand_response : Language → Text
unmet_demand_response kk = unmet_demand_text_kk
unmet_demand_response _ = unmet_demand_text_ru

-- an active row of the customer
abbrev pub is_active_of : Text → Text → RecommendationState → Bool
is_active_of channel user s =
    text_eq s.channel channel && text_eq s.external_user_id user && is_active s.status

unfoldable pub supersede : Text → Text → ℤ → List RecommendationState → List RecommendationState
supersede channel user stamp [] = []
supersede channel user stamp (s ∷ rows) =
    (if is_active_of channel user s
      then record s { status = superseded; updated_at = stamp }
      else s)
    ∷ supersede channel user stamp rows

-- `new_id` is the id of the inserted row, `created` its `updated_at` by default
unfoldable pub store_recommendation_set :
    Uuid
    → ℤ
    → Text
    → Text
    → List DisplayedProduct
    → Uuid
    → ℤ
    → List RecommendationState
    → Uuid × List RecommendationState
unfolding supersede
store_recommendation_set new_id created channel user displayed message_id now rows = (
  new_id,
  supersede channel user now rows
      ++ record {
        id = new_id;
        channel = channel;
        external_user_id = user;
        displayed_products = displayed;
        status = active;
        selected_product_id = none;
        selected_index = none;
        source_message_id = some message_id;
        updated_at = created;
      }
        ∷ [],
)

unfoldable pub snapshot_of : Option RecommendationState → Option ActiveRecommendation
snapshot_of none = none
snapshot_of (some s) = some (record { state_id = s.id; displayed_products = s.displayed_products })

unfoldable pub load_active_recommendation :
    Text → Text → List RecommendationState → Option ActiveRecommendation
unfolding snapshot_of
load_active_recommendation channel user rows =
    snapshot_of (first (select (is_active_of channel user) rows))

abbrev pub state_key : RecommendationState → Uuid
state_key s = s.id

unfoldable pub selected_row : ℕ → Option Uuid → ℤ → RecommendationState → RecommendationState
selected_row index product_id now s = record s {
  status = selected;
  selected_index = some index;
  selected_product_id = product_id;
  updated_at = now;
}

unfoldable pub mark_recommendation_selected :
    Uuid → ℕ → Option Uuid → ℤ → List RecommendationState → List RecommendationState
unfolding update_row selected_row
mark_recommendation_selected state_id index product_id now rows =
    update_row state_key state_id (selected_row index product_id now) rows

-- A second row for one source message violates the unique constraint, and is rolled back.
unfoldable pub persist_unmet_demand :
    Text → Text → Uuid → CustomerRequest → List UnmetDemand → Bool × List UnmetDemand
persist_unmet_demand channel user message_id request rows =
    if any (λ (d : UnmetDemand). d.source_message_id == message_id) rows then (false, rows) else (
      true,
      rows
          ++ record {
            channel = channel;
            external_user_id = user;
            source_message_id = message_id;
            query_text = request.query_text;
            category = request.category;
            attributes = request.attributes;
            budget_max_kzt = request.budget_max_kzt;
            quantity = request.quantity;
            language = request.language;
          }
            ∷ [],
    )
