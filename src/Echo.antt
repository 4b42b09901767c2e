-- ===== src/Echo.antt =====
-- apps/worker/jobs/whatsapp_echo.py: the texts that the worker sends, and the outcome of a run. The
-- run itself is in Echo/Worker.
pub mod World
pub mod Worker
pub mod Paths
pub mod Effects
pub mod Sets
pub mod Selection
pub mod Unreadable
mod Examples
use talap_ml.Common.{
  ℕ, ◌+◌, ◌-◌, Bool, true, false, ◌&&◌, Option, none, some, List, [], ◌∷◌, ◌++◌, length, leb,
  get_elem?, if◌then◌else◌,
}
use talap_ml.Common.Text.{Text, text, is_empty}
use talap_ml.Common.Decimal.{show}
use talap_ml.Common.Table.{Uuid}
use talap_ml.Recommendations.{
  CustomerRequest, DisplayedProduct, Intent, product_search, handoff, unknown_intent,
}

-- talap/search/products.py, the fields that are read
pub record ProductSearchResult : Type 0 where
  pub product_id : Uuid
  pub name : Text
  pub price_kzt : ℕ

-- A reply of the search, or of a text built by it.
pub data SearchReply (A : Type 0) : Type 0 where
  replied : A → SearchReply A
  search_error : SearchReply A
  search_raises : SearchReply A

abbrev pub recommendation_header : Text
recommendation_header = text "Нашёл подходящие варианты:"

abbrev pub recommendation_footer : Text
recommendation_footer = text "Ответьте номером товара: 1, 2 или 3."

abbrev pub no_results_text : Text
no_results_text = text "К сожалению, подходящих товаров сейчас не найдено."

abbrev pub clarification_prefix : Text
clarification_prefix = text "Уточните, пожалуйста: "

abbrev pub handoff_text : Text
handoff_text = text "Передаю ваш запрос менеджеру."

abbrev pub unknown_text : Text
unknown_text = text "Опишите, пожалуйста, какой товар вы ищете."

abbrev pub recommendation_limit : ℕ
recommendation_limit = 3

abbrev pub newline : ℕ
newline = 10

-- `" — {price} ₸"`
abbrev pub price_text : ℕ → Text
price_text price = text " — " ++ show price ++ text " ₸"

abbrev pub item_text : ℕ → ProductSearchResult → Text
item_text index r = show index ++ text ". " ++ r.name ++ price_text r.price_kzt

-- the lines of `enumerate(results, start=index)`, joined
unfoldable pub items_from : ℕ → List ProductSearchResult → Text
items_from index [] = []
items_from index (r ∷ []) = item_text index r
items_from index (r ∷ rs) = item_text index r ++ newline ∷ items_from (index + 1) rs

unfoldable pub format_recommendations : List ProductSearchResult → Text
unfolding items_from
format_recommendations results =
    recommendation_header
    ++ newline ∷ newline ∷ items_from 1 results
    ++ newline ∷ newline ∷ recommendation_footer

unfoldable pub no_results_or_items : List ProductSearchResult → Text
no_results_or_items [] = no_results_text
no_results_or_items (r ∷ rs) = format_recommendations (r ∷ rs)

search_text : SearchReply (List ProductSearchResult) → SearchReply Text
search_text (replied results) = replied (no_results_or_items results)
search_text search_error = search_error
search_text search_raises = search_raises

-- by the intent and the missing field of the request
response_text_of : Intent → Option Text → SearchReply (List ProductSearchResult) → SearchReply Text
unfolding search_text
response_text_of handoff missing reply = replied handoff_text
response_text_of unknown_intent missing reply = replied unknown_text
response_text_of product_search (some field) reply = replied (clarification_prefix ++ field)
response_text_of product_search none reply = search_text reply

unfoldable pub build_response_text :
    (CustomerRequest → SearchReply (List ProductSearchResult)) → CustomerRequest → SearchReply Text
unfolding response_text_of
build_response_text search request =
    response_text_of request.intent request.missing_field (search request)

-- `uuid_text` is `str` of a UUID
unfoldable pub displayed_snapshots :
    (Uuid → Text) → List ProductSearchResult → List DisplayedProduct
displayed_snapshots uuid_text [] = []
displayed_snapshots uuid_text (r ∷ rs) =
    record {
      product_id = some (uuid_text r.product_id);
      name = some r.name;
      price_kzt = some r.price_kzt;
    }
    ∷ displayed_snapshots uuid_text rs

-- `uuid_of` is `UUID(value)`, none its ValueError
unfoldable pub product_uuid : (Text → Option Uuid) → DisplayedProduct → Option Uuid
product_uuid uuid_of displayed = elim displayed.product_id [ none ↦ none | some v ↦ uuid_of v ]

abbrev pub price_part : Option ℕ → Text
price_part none = []
price_part (some price) = price_text price

abbrev pub or_empty : Option Text → Text
or_empty none = []
or_empty (some s) = s

abbrev pub link_part : Option Text → Text
link_part none = []
link_part (some []) = []
link_part (some (c ∷ link)) = newline ∷ newline ∷ text "Напишите менеджеру:" ++ newline ∷ c ∷ link

unfoldable pub format_selection_response : DisplayedProduct → Option Text → Text
format_selection_response displayed manager_link =
    text "Вы выбрали: "
    ++ or_empty displayed.name
    ++ price_part displayed.price_kzt
    ++ text "."
    ++ link_part manager_link

unfoldable pub out_of_range_selection_text : ℕ → Text
out_of_range_selection_text count =
    text "Выберите, пожалуйста, номер от 1 до " ++ show count ++ text "."

-- the product of a reply `index`, under the guard `1 <= index <= len(products)`
unfoldable pub selected_product : ℕ → List DisplayedProduct → Option DisplayedProduct
selected_product index products =
    if leb 1 index && leb index (length products) then get_elem? products (index - 1) else none

pub data EchoOutcome : Type 0 where
  no_job sent no_response released retry_scheduled failed : EchoOutcome

pub record EchoResult : Type 0 where
  pub outcome : EchoOutcome
  pub job_id : Option Uuid
  pub sent_external_message_id : Option Text
