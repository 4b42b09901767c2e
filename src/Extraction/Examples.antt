-- ===== src/Extraction/Examples.antt =====
-- A model that answers with an invalid object first, for talap/ai/customer_request.py.
use talap_ml.Common.{none, some, if◌then◌else◌}
use talap_ml.Common.Text.{Text, text, text_eq}
use talap_ml.Common.Json.{object, string, array, nil, cons, Fields, end, field}
use talap_ml.Extraction.{Services, Keys, Exchange, responded, extract_customer_request}
use talap_ml.Extraction.Requests.{IsExtraction, extract_customer_request-IsExtraction}

abbrev request : Fields
request = field (text "intent") (string (text "handoff")) (
    field (text "language") (string (text "kk"))
      (field (text "query_text") (string (text " desk ")) end))

-- the response with a content
abbrev response : Text → Exchange
response content = responded 200 (
    some (
      object (
        field (text "choices")
          (array (
            cons
              (object
                (field (text "message") (object (field (text "content") (string content) end)) end))
              nil))
          end)))

-- "good" stands for the JSON of the request
abbrev services : Services
services = record {
  loads =
      λ content. if text_eq content (text "good") then some (object request) else some (object end);
  lax_int = λ value. none;
  chat = λ messages. response (text "good");
}

abbrev keys : Keys
keys = record { argument = none; setting = some (text "k") }

extract_customer_request-IsExtraction_example :
    IsExtraction services (extract_customer_request services keys (text "desk"))
extract_customer_request-IsExtraction_example =
    extract_customer_request-IsExtraction services keys (text "desk")
